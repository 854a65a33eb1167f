-- ===== src/Serving/Shadow.antt =====
-- inference/shadow.py: the agreement of a challenger with the champion.
pub mod Counts
use edgesense_ai.Prelude.{
  ℕ, ◌+◌, String, Bool, true, false, Option, none, some, bool_eq, if◌then◌else◌, ◌==◌,
}
use edgesense_ai.Python.Number.{Float}

pub record ShadowTracker (F : Type 0) : Type 0 where
  pub shadow_version : String
  pub champion_version : String
  pub since : String
  pub n : ℕ
  pub agree : ℕ
  pub champion_only : ℕ
  pub shadow_only : ℕ
  pub errors : ℕ
  pub diff_sum : F
  pub abs_diff_sum : F

pub record ShadowReport (F : Type 0) : Type 0 where
  pub shadow_version : String
  pub champion_version : String
  pub since : String
  pub n : ℕ
  pub agree : ℕ
  pub champion_only : ℕ
  pub shadow_only : ℕ
  pub errors : ℕ
  pub agreement_rate : Option F
  pub score_mae : Option F
  pub score_bias : Option F

module _ {F : Type 0} (fl : Float F) where
  unfoldable pub new_shadow_tracker : String → String → String → ShadowTracker F
  new_shadow_tracker now shadow_version champion_version = record {
    shadow_version = shadow_version;
    champion_version = champion_version;
    since = now;
    n = 0;
    agree = 0;
    champion_only = 0;
    shadow_only = 0;
    errors = 0;
    diff_sum = fl.zero;
    abs_diff_sum = fl.zero;
  }

  abbrev count_verdicts : ShadowTracker F → Bool → Bool → ShadowTracker F
  count_verdicts t champion_anomaly shadow_anomaly =
      if bool_eq shadow_anomaly champion_anomaly
      then record t { agree = t.agree + 1 }
      else if shadow_anomaly
      then record t { shadow_only = t.shadow_only + 1 }
      else record t { champion_only = t.champion_only + 1 }

  unfoldable pub observe_shadow : ShadowTracker F → F → Bool → F → Bool → ShadowTracker F
  observe_shadow t champion_score champion_anomaly shadow_score shadow_anomaly =
      let counted = count_verdicts (record t { n = t.n + 1 }) champion_anomaly shadow_anomaly in
      let diff = fl.sub shadow_score champion_score in
      record counted {
        diff_sum = fl.add counted.diff_sum diff;
        abs_diff_sum = fl.add counted.abs_diff_sum (fl.abs diff);
      }

  unfoldable pub shadow_error : ShadowTracker F → ShadowTracker F
  shadow_error t = record t { errors = t.errors + 1 }

  -- `round(x / n, digits) if n else None`
  abbrev rate_of : F → ℕ → ℕ → Option F
  rate_of x n digits = if n == 0 then none else some (fl.round (fl.div x (fl.of_nat n)) digits)

  unfoldable pub report : ShadowTracker F → ShadowReport F
  report t = record {
    shadow_version = t.shadow_version;
    champion_version = t.champion_version;
    since = t.since;
    n = t.n;
    agree = t.agree;
    champion_only = t.champion_only;
    shadow_only = t.shadow_only;
    errors = t.errors;
    agreement_rate = rate_of (fl.of_nat t.agree) t.n 5;
    score_mae = rate_of t.abs_diff_sum t.n 6;
    score_bias = rate_of t.diff_sum t.n 6;
  }
