-- ===== src/Python/Files/Hoare.antt =====
-- Rules for what a call guarantees about the files, at its end and in every state on the way.
use edgesense_ai.Prelude.{◌≡◌, true, false, some, List, [], ◌∷◌, All, Bool}
use edgesense_ai.Python.Error.{Result, ok, err, Error}
use edgesense_ai.Python.Files.{
  FilePath, Fs, World, Io, pure, ◌>>=◌, change, change_on, read, on_error, continue, cleaned,
  reraise, ask,
}

-- What holds at the end: `Q` for a value, `E` after a raise.
abbrev pub Post : {C A : Type 0} → (A → Fs C → Type 0) → (Fs C → Type 0) → Result A → Fs C → Type 0
Post Q E (ok a) fs = Q a fs
Post Q E (err e) fs = E fs

-- Every state that the call of `m` leaves behind it has `I`, and the last has `Q`, or `E`.
abbrev pub Reaches :
    {C A : Type 0}
    → (I : Fs C → Type 0) (Q : A → Fs C → Type 0) (E : Fs C → Type 0) → Result A × World C
    → Type 0
Reaches I Q E (r, w) = All I w.seen × Post Q E r w.files

pub record Ensures {C A : Type 0} (I P : Fs C → Type 0) (m : Io C A) (Q : A → Fs C → Type 0)
    (E : Fs C → Type 0) : Type 0 where
  pub at : (w : World C) → P w.files → All I w.seen → Reaches I Q E (m w)

module _ {C A : Type 0} (Q : A → Fs C → Type 0) where
  reraise_lem :
      (E : Fs C → Type 0) (e : Error) (r : Result (Unit {0})) (fs : Fs C)
      → Post (λ _. E) E r fs
      → Post Q E (reraise e r) fs
  reraise_lem E e (ok _) fs h = h
  reraise_lem E e (err _) fs h = h

  Post-weaken :
      (Q' : A → Fs C → Type 0) (E E' : Fs C → Type 0) (r : Result A) (fs : Fs C)
      → ((a : A) (fs : Fs C) → Q a fs → Q' a fs)
      → ((fs : Fs C) → E fs → E' fs)
      → Post Q E r fs
      → Post Q' E' r fs
  Post-weaken Q' E E' (ok a) fs after raised h = after a fs h
  Post-weaken Q' E E' (err e) fs after raised h = raised fs h

Post-of :
    {C A : Type 0} (Q : A → Fs C → Type 0) (E : Fs C → Type 0) (r : Result A) (fs : Fs C)
    → ((a : A) → Q a fs)
    → E fs
    → Post Q E r fs
Post-of Q E (ok a) fs q e = q a
Post-of Q E (err x) fs q e = e

module _ {C : Type 0} (I P Q E : Fs C → Type 0) where
  Reaches-change :
      (faults : List Bool) (f : Fs C → Fs C) (w : World C)
      → ((fs : Fs C) → P fs → I fs)
      → ((fs : Fs C) → P fs → Q (f fs))
      → ((fs : Fs C) → P fs → E fs)
      → P w.files
      → All I w.seen
      → Reaches I (λ _. Q) E (change_on faults f w)
  Reaches-change [] f w now done fails p h = ((now _ p, h), done _ p)
  Reaches-change (true ∷ rest) f w now done fails p h = (h, fails _ p)
  Reaches-change (false ∷ rest) f w now done fails p h = ((now _ p, h), done _ p)

module _ {C A : Type 0} (I E E' : Fs C → Type 0) (Q : A → Fs C → Type 0) where
  Reaches-cleaned :
      (r : Result A) (clean : Io C Unit) (w : World C)
      → Ensures I E clean (λ _. E') E'
      → Reaches I Q E (r, w)
      → Reaches I Q E' (cleaned clean r w)
  Reaches-cleaned (ok a) clean w hc h = h
  Reaches-cleaned (err e) clean w hc h =
      let (r, w') = clean w in
      let done = hc.at w h.1 h.0 in (done.0, reraise_lem Q E' e r w'.files done.1)

module _ {C A B : Type 0} (I E : Fs C → Type 0) (Q : A → Fs C → Type 0)
    (R : B → Fs C → Type 0) where
  Reaches-continue :
      (r : Result A) (f : A → Io C B) (w : World C)
      → ((a : A) → Ensures I (Q a) (f a) R E)
      → Reaches I Q E (r, w)
      → Reaches I R E (continue r f w)
  Reaches-continue (ok a) f w k h = (k a).at w h.1 h.0
  Reaches-continue (err e) f w k h = h

module _ {C : Type 0} {I : Fs C → Type 0} where
  pub Ensures-pure : {A : Type 0} {P E : Fs C → Type 0} (a : A) → Ensures I P (pure a) (λ _. P) E
  Ensures-pure a = record { at = λ w p h. (h, p) }

  pub Ensures-bind :
      {A B : Type 0} {P E : Fs C → Type 0} {Q : A → Fs C → Type 0} {R : B → Fs C → Type 0}
      (m : Io C A) (f : A → Io C B)
      → Ensures I P m Q E
      → ((a : A) → Ensures I (Q a) (f a) R E)
      → Ensures I P (m >>= f) R E
  unfolding ◌>>=◌
  Ensures-bind {E} {Q} {R} m f hm hf = record {
    at = λ w p h. let (r, w') = m w in Reaches-continue I E Q R r f w' hf (hm.at w p h);
  }

  -- A change may also not take place.
  pub Ensures-change :
      {P Q E : Fs C → Type 0} (f : Fs C → Fs C)
      → ((fs : Fs C) → P fs → I fs)
      → ((fs : Fs C) → P fs → Q (f fs))
      → ((fs : Fs C) → P fs → E fs)
      → Ensures I P (change f) (λ _. Q) E
  unfolding change
  Ensures-change {P} {Q} {E} f now done fails = record {
    at = λ w p h. Reaches-change I P Q E w.faults f w now done fails p h;
  }

  -- A file that is known to be there is read, and the call goes on with what it computes from it.
  pub Ensures-read :
      {A B : Type 0} {P E : Fs C → Type 0} {R : B → Fs C → Type 0} (p : FilePath) (c : C)
      (g : C → A) (k : A → Io C B)
      → ((fs : Fs C) → P fs → fs p ≡ some c)
      → Ensures I P (k (g c)) R E
      → Ensures I P ((read p >>= λ d. pure (g d)) >>= k) R E
  unfolding read ◌>>=◌
  Ensures-read p c g k has hk = record { at = λ w q h. rw (has w.files q) (hk.at w q h) }

  pub Ensures-pure_then :
      {A B : Type 0} {P E : Fs C → Type 0} {R : B → Fs C → Type 0} (a : A) (f : A → Io C B)
      → Ensures I P (f a) R E
      → Ensures I P (pure a >>= f) R E
  unfolding ◌>>=◌
  Ensures-pure_then a f hf = record { at = λ w q h. hf.at w q h }

  pub Ensures-weaken :
      {A : Type 0} {P P' E E' : Fs C → Type 0} {Q Q' : A → Fs C → Type 0} (m : Io C A)
      → Ensures I P m Q E
      → ((fs : Fs C) → P' fs → P fs)
      → ((a : A) (fs : Fs C) → Q a fs → Q' a fs)
      → ((fs : Fs C) → E fs → E' fs)
      → Ensures I P' m Q' E'
  Ensures-weaken {E} {E'} {Q} {Q'} m hm before after raised = record {
    at = λ w p h.
        let (r, w') = m w in
        let done = hm.at w (before w.files p) h in
        (done.0, Post-weaken Q Q' E E' r w'.files after raised done.1);
  }

  pub Ensures-on_error :
      {A : Type 0} {P E E' : Fs C → Type 0} {Q : A → Fs C → Type 0} (m : Io C A) (clean : Io C Unit)
      → Ensures I P m Q E
      → Ensures I E clean (λ _. E') E'
      → Ensures I P (on_error m clean) Q E'
  unfolding on_error
  Ensures-on_error {E} {E'} {Q} m clean hm hc = record {
    at = λ w p h. let (r, w') = m w in Reaches-cleaned I E E' Q r clean w' hc (hm.at w p h);
  }

  pub Ensures-ask :
      {A B : Type 0} {P Q E : Fs C → Type 0} {R : B → Fs C → Type 0} (f : Fs C → Result A) (a : A)
      (k : A → Io C B)
      → ((fs : Fs C) → P fs → f fs ≡ ok a)
      → ((fs : Fs C) → P fs → Q fs)
      → Ensures I Q (k a) R E
      → Ensures I P (ask f >>= k) R E
  unfolding ◌>>=◌
  Ensures-ask f a k is after hk = record {
    at = λ w p h. rw (is w.files p) (hk.at w (after w.files p) h);
  }

  -- A question that may raise.
  pub Ensures-ask_any :
      {A : Type 0} {P E : Fs C → Type 0} (f : Fs C → Result A)
      → ((fs : Fs C) → P fs → E fs)
      → Ensures I P (ask f) (λ _. P) E
  Ensures-ask_any {P} {E} f raised = record {
    at = λ w p h. (h, Post-of (λ _. P) E (f w.files) w.files (λ _. p) (raised w.files p));
  }

  -- A question that raises ends the call.
  pub Ensures-ask_err :
      {A B : Type 0} {P E : Fs C → Type 0} {R : B → Fs C → Type 0} (f : Fs C → Result A) (e : Error)
      (k : A → Io C B)
      → ((fs : Fs C) → P fs → f fs ≡ err e)
      → ((fs : Fs C) → P fs → E fs)
      → Ensures I P (ask f >>= k) R E
  unfolding ◌>>=◌
  Ensures-ask_err f e k is raised = record { at = λ w p h. rw (is w.files p) (h, raised w.files p) }
