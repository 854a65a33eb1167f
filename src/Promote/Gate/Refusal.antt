-- ===== src/Promote/Gate/Refusal.antt =====
-- A run of the gate that refuses leaves the champion.
use edgesense_ai.Prelude.{ℕ, ◌≡◌, ◌≢◌, refl, sym, ◌∙◌, String, List, [], ◌∷◌, All, arith}
use edgesense_ai.Python.Error.{Result, ok, err}
use edgesense_ai.Python.Json.{Content}
use edgesense_ai.Python.Format.{Format}
use edgesense_ai.Python.Files.{FilePath, Fs, World}
use edgesense_ai.Python.Files.Hoare.{
  Ensures, Ensures-bind, Ensures-ask, Ensures-ask_err, Ensures-change, Post,
}
use edgesense_ai.Python.Files.Keeps.{Keeps, Ignores, Keeps-bind, Keeps-write}
use edgesense_ai.Signing.{Crypto, signature_path}
use edgesense_ai.Manifest.Save.{Host}
use edgesense_ai.Manifest.Save.Pair.{Holds}
use edgesense_ai.Manifest.Save.Elsewhere.{IsApart, save_bundle-Keeps}
use edgesense_ai.Promote.{Failure}
use edgesense_ai.Promote.Judge.{Calls, Arguments, Judgement, judge, is_empty_list}
use edgesense_ai.Promote.Gate.{
  pickle, candidate_path, report_path, archive, promote, run_gate, exit_code,
}

one_ne : ◌≢◌ {A = ℕ} 1 0
one_ne e = omega (arith, e)

pub two_ne : ◌≢◌ {A = ℕ} 2 0
two_ne e = omega (arith, e)

pub cons_ne : {A : Type 0} (x : A) (xs : List A) → x ∷ xs ≢ []
cons_ne x xs e = cc

All-unit : {A : Type 0} (xs : List A) → All (λ _. Unit {0}) xs
All-unit [] = tt
All-unit (x ∷ xs) = (tt, All-unit xs)

anywhere :
    {C : Type 0} {temp : FilePath → FilePath} (q : FilePath)
    → IsApart {C = C} (λ _. Unit {0}) temp q
anywhere q = record {
  artifact = λ _ _ _. tt;
  artifact_temp = λ _ _ _. tt;
  signature = λ _ _ _. tt;
  signature_temp = λ _ _ _. tt;
  manifest = λ _ _ _. tt;
  manifest_temp = λ _ _ _. tt;
  card = λ _ _ _. tt;
  card_temp = λ _ _ _. tt;
}

module _ {F P Key PublicKey : Type 0} (c : Crypto F Key PublicKey) (h : Host F) (fmt : Format F)
    (calls : Calls F P) (args : Arguments F) where
  abbrev pub judged : Fs (Content F) → Result (Judgement F P)
  judged fs = judge h.floats fmt calls args fs

  -- The judgement raised or found a failure.
  abbrev pub Refuses : Result (Judgement F P) → Type 0
  Refuses (err e) = Unit
  Refuses (ok j) = j.failures ≢ []

  pub Refuses-of :
      (r : Result (Judgement F P)) (j : Judgement F P) → r ≡ ok j → j.failures ≢ [] → Refuses r
  Refuses-of r j e refused = rw e refused

  module _ (I S : Fs (Content F) → Type 0) (sub : (fs : Fs (Content F)) → S fs → I fs)
      (apart : IsApart S h.temp (candidate_path c h fmt calls args))
      (report_apart : Ignores S (report_path c h fmt calls args)) where
    pub archive-Keeps : (j : Judgement F P) → Keeps I S (archive c h fmt calls args j)
    unfolding archive
    archive-Keeps j =
        Keeps-bind I S sub _ _
          (save_bundle-Keeps c (pickle c h fmt calls args) h I S sub
            (candidate_path c h fmt calls args) apart j.bundle)
          (λ _. Keeps-write I S sub _ _ report_apart)

  not_promoted :
      (S : Fs (Content F) → Type 0) (failures : List (Failure F)) (j : Judgement F P)
      → failures ≢ []
      → Ensures S S
          (promote c h fmt calls args (is_empty_list failures) j)
          (λ out fs. S fs × (out.0 ≡ 1))
          S
  unfolding promote
  not_promoted S [] j refused = absurd (refused refl)
  not_promoted S (f ∷ fs) j refused = record { at = λ w s seen. (seen, (s, refl)) }

  -- Nothing is promoted: what the archive ignores holds at every moment, and the code is 1.
  refused_run :
      (S : Fs (Content F) → Type 0)
      → IsApart S h.temp (candidate_path c h fmt calls args)
      → Ignores S (report_path c h fmt calls args)
      → (r : Result (Judgement F P)) → Refuses r
      → Ensures S
          (λ fs. S fs × (judged fs ≡ r))
          (run_gate c h fmt calls args)
          (λ out fs. S fs × (out.0 ≡ 1))
          S
  unfolding run_gate
  refused_run S apart report_apart (err e) refused =
      Ensures-bind {Q = λ _ fs. S fs × (judged fs ≡ err e)} _ _
        (Ensures-change _ (λ _ s. s.0) (λ _ s. s) (λ _ s. s.0))
        (λ _. Ensures-ask_err judged e _ (λ _ s. s.1) (λ _ s. s.0))
  refused_run S apart report_apart (ok j) refused =
      Ensures-bind {Q = λ _ fs. S fs × (judged fs ≡ ok j)} _ _
        (Ensures-change _ (λ _ s. s.0) (λ _ s. s) (λ _ s. s.0))
        (λ _.
          Ensures-ask {Q = S} judged j _ (λ _ s. s.1) (λ _ s. s.0)
            (Ensures-bind {Q = λ _. S} _ _ (archive-Keeps S S (λ _ s. s) apart report_apart j)
              (λ _. not_promoted S j.failures j refused)))

  code_of_Post :
      (S : Fs (Content F) → Type 0) (r : Result (ℕ × String)) (fs : Fs (Content F))
      → Post (λ out fs. S fs × (out.0 ≡ 1)) S r fs
      → S fs × (exit_code r ≢ 0)
  unfolding exit_code
  code_of_Post S (ok (code, report)) fs (s, one) = (s, λ z. one_ne (sym one ∙ z))
  code_of_Post S (err e) fs s = (s, λ z. two_ne z)

  -- A gate whose judgement raises, before any file is written, or finds a failure leaves the champion and its signature
  -- as they were, at every moment and however the writes of the archive end, and does not exit with 0, where the
  -- archive's folder keeps clear of the two.
  pub refused_keeps_champion :
      (w : World (Content F))
      → w.seen ≡ []
      → Refuses (judged w.files)
      → let champion =
          Holds args.champion_path
            (w.files args.champion_path)
            (w.files (signature_path args.champion_path)) in
        IsApart champion h.temp (candidate_path c h fmt calls args)
        → Ignores champion (report_path c h fmt calls args)
        → let (r, w') = run_gate c h fmt calls args w in
          All champion (w'.files ∷ w'.seen) × (exit_code r ≢ 0)
  refused_keeps_champion w fresh refused apart report_apart =
      let champion =
        Holds args.champion_path (w.files args.champion_path)
          (w.files (signature_path args.champion_path)) in
      let done =
        (refused_run champion apart report_apart (judged w.files) refused).at w
          (record { artifact_is = refl; signature_is = refl }, refl) (rw fresh tt) in
      let out = run_gate c h fmt calls args w in
      let last = code_of_Post champion out.0 out.1.files done.1 in ((last.0, done.0), last.1)

  pub ruled_out :
      (w : World (Content F))
      → exit_code (run_gate c h fmt calls args w).0 ≡ 0
      → Refuses (judged w.files)
      → ⊥
  ruled_out w zero_code refused =
      let done =
        (refused_run (λ _. Unit {0}) (anywhere _) (λ _ _ _. tt) (judged w.files) refused).at w
          (tt, refl) (All-unit w.seen) in
      let out = run_gate c h fmt calls args w in
      (code_of_Post (λ _. Unit {0}) out.0 out.1.files done.1).1 zero_code
