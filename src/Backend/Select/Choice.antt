-- ===== src/Backend/Select/Choice.antt =====
-- backend/select.rs: which adapter is chosen.
use ugpibd.Prelude.{
  ℕ, ◌≡◌, refl, sym, ap, ◌∙◌, ◌↔◌, inl, inr, Bool, true, false, ◌&&◌, Option, List, [], ◌∷◌, ◌++◌,
  Bool-cases, All, ◌≢◌, false, arith,
}
use ugpibd.Prelude.Results.{ok, ok_inj}
use ugpibd.Backend.Select.Wanted.{IsWanted, of_backend-IsOf, of_port-IsSelected}
use ugpibd.Backend.Select.{
  DiscoveredAdapter, UsbSelector, ResolveError, port, Os, of_backend, of_port, kept, no_match, pick,
  resolve, macos,
}

-- The one element that passes a test.
record PassesOnly {A : Type 0} (p : A → Bool) (a : A) (xs : List A) : Type 0 where
  pub before : List A
  pub after : List A
  pub split : xs ≡ before ++ (a ∷ after)
  pub passes : p a ≡ true
  pub none_before : All (λ x. p x ≡ false) before
  pub none_after : All (λ x. p x ≡ false) after

module _ {A : Type 0} where
  kept-kept : (p q : A → Bool) (xs : List A) → kept q (kept p xs) ≡ kept (λ x. p x && q x) xs
  unfolding kept
  kept-kept p q [] = refl
  kept-kept p q (x ∷ xs) = elim (Bool-cases (p x)) [
    | inl e ↦ rw (e, kept-kept p q xs)
    | inr e ↦ rw (e, kept-kept p q xs)
  ]

  kept-none : (p : A → Bool) (xs : List A) → kept p xs ≡ [] → All (λ x. p x ≡ false) xs
  unfolding kept
  kept-none p [] e = tt
  kept-none p (x ∷ xs) e = elim (Bool-cases (p x)) [
    | inl h ↦ absurd (cc (rw h at e))
    | inr h ↦ (h, kept-none p xs (rw h at e))
  ]

  none-kept : (p : A → Bool) (xs : List A) → All (λ x. p x ≡ false) xs → kept p xs ≡ []
  unfolding kept
  none-kept p [] h = refl
  none-kept p (x ∷ xs) h = rw h.0 (none-kept p xs h.1)

  kept-split :
      (p : A → Bool) (before after : List A) (a : A)
      → All (λ x. p x ≡ false) before
      → p a ≡ true
      → All (λ x. p x ≡ false) after
      → kept p (before ++ (a ∷ after)) ≡ a ∷ []
  unfolding kept
  kept-split p [] after a h e h' = rw (e, none-kept p after h')
  kept-split p (x ∷ before) after a h e h' = rw h.0 (kept-split p before after a h.1 e h')

  only-kept : (p : A → Bool) (a : A) (xs : List A) → PassesOnly p a xs → kept p xs ≡ a ∷ []
  only-kept p a xs o =
      ap (kept p) o.split ∙ kept-split p o.before o.after a o.none_before o.passes o.none_after

  kept-PassesOnly : (p : A → Bool) (a : A) (xs : List A) → kept p xs ≡ a ∷ [] → PassesOnly p a xs
  unfolding kept
  kept-PassesOnly p a [] e = absurd (cc e)
  kept-PassesOnly p a (x ∷ xs) e = elim (Bool-cases (p x)) [
    | inl h ↦
        let e' : x ∷ kept p xs ≡ a ∷ [] = rw h at e in
        let same : x ≡ a = cc e' in
        let rest : kept p xs ≡ [] = cc e' in
        record {
          before = [];
          after = xs;
          split = ap (λ y. y ∷ xs) same;
          passes = sym (ap p same) ∙ h;
          none_before = tt;
          none_after = kept-none p xs rest;
        }
    | inr h ↦
        let o : PassesOnly p a xs = kept-PassesOnly p a xs (rw h at e) in
        record {
          before = x ∷ o.before;
          after = o.after;
          split = ap (λ ys. x ∷ ys) o.split;
          passes = o.passes;
          none_before = (h, o.none_before);
          none_after = o.none_after;
        }
  ]

pick-ok :
    (e : ResolveError) (xs : List DiscoveredAdapter) (a : DiscoveredAdapter)
    → pick e xs ≡ ok a
    → xs ≡ a ∷ []
pick-ok e [] a h = absurd (cc h)
pick-ok e (x ∷ []) a h = ap (λ y. y ∷ []) (ok_inj h)
pick-ok e (x ∷ y ∷ rest) a h = absurd (cc h)

-- The two filters in one test.
abbrev fits : Os → Option (List ℕ) → UsbSelector → DiscoveredAdapter → Bool
fits os backend selector a = of_backend backend a && of_port os (port selector) a

pick_kept :
    (os : Os) (found : List DiscoveredAdapter) (backend : Option (List ℕ)) (selector : UsbSelector)
    → resolve os found backend selector
      ≡ pick (no_match backend (port selector)) (kept (fits os backend selector) found)
unfolding resolve
pick_kept os found backend selector =
    ap (pick (no_match backend (port selector)))
      (kept-kept (of_backend backend) (of_port os (port selector)) found)

fits-IsWanted :
    (os : Os) (backend : Option (List ℕ)) (selector : UsbSelector) (a : DiscoveredAdapter)
    → os ≢ macos
    → (fits os backend selector a ≡ true) ↔ IsWanted os backend selector a
fits-IsWanted os backend selector a ne =
    let b = of_backend-IsOf backend a in
    let p = of_port-IsSelected os selector a ne in
    (λ e. (b.0 (ground (arith, e)), p.0 (ground (arith, e))), λ w. rw (b.1 w.0, p.1 w.1) refl)

-- The one element of which it holds.
pub record IsOnly {A : Type 0} (P : A → Type 0) (a : A) (xs : List A) : Type 0 where
  pub before : List A
  pub after : List A
  pub split : xs ≡ before ++ (a ∷ after)
  pub holds : P a
  pub none_before : All (λ x. ¬ P x) before
  pub none_after : All (λ x. ¬ P x) after

module _ {A : Type 0} (p : A → Bool) (P : A → Type 0) (iff : (x : A) → (p x ≡ true) ↔ P x) where
  fail-none : (xs : List A) → All (λ x. p x ≡ false) xs → All (λ x. ¬ P x) xs
  fail-none [] h = tt
  fail-none (x ∷ xs) h = (λ w. cc (h.0, (iff x).1 w), fail-none xs h.1)

  none-fail : (xs : List A) → All (λ x. ¬ P x) xs → All (λ x. p x ≡ false) xs
  none-fail [] h = tt
  none-fail (x ∷ xs) h =
      (elim (Bool-cases (p x)) [ inl e ↦ absurd (h.0 ((iff x).0 e)) | inr e ↦ e ], none-fail xs h.1)

  PassesOnly-IsOnly : (a : A) (xs : List A) → PassesOnly p a xs ↔ IsOnly P a xs
  PassesOnly-IsOnly a xs = (
    λ o. record {
      before = o.before;
      after = o.after;
      split = o.split;
      holds = (iff a).0 o.passes;
      none_before = fail-none o.before o.none_before;
      none_after = fail-none o.after o.none_after;
    },
    λ o. record {
      before = o.before;
      after = o.after;
      split = o.split;
      passes = (iff a).1 o.holds;
      none_before = none-fail o.before o.none_before;
      none_after = none-fail o.after o.none_after;
    },
  )

-- On systems other than macOS, an adapter is chosen exactly if it is the only one among those
-- found that has the backend id that the operator names, if any, and the port, if any: its port
-- id is what the operator names or, on Linux, what follows the last slash of it.
pub resolve-IsOnly :
    (os : Os) (found : List DiscoveredAdapter) (backend : Option (List ℕ)) (selector : UsbSelector)
    (a : DiscoveredAdapter)
    → os ≢ macos
    → (resolve os found backend selector ≡ ok a) ↔ IsOnly (IsWanted os backend selector) a found
resolve-IsOnly os found backend selector a ne =
    let e = no_match backend (port selector) in
    let fused = pick_kept os found backend selector in
    let test = fits os backend selector in
    let only =
      PassesOnly-IsOnly test (IsWanted os backend selector)
        (λ x. fits-IsWanted os backend selector x ne) a found in
    (
      λ h. only.0 (kept-PassesOnly test a found (pick-ok e (kept test found) a (sym fused ∙ h))),
      λ o. fused ∙ ap (pick e) (only-kept test a found (only.1 o)),
    )
