-- ===== src/Backend/Select/Wanted.antt =====
-- backend/select.rs: the adapter that the operator asks for, and the filters.
use ugpibd.Prelude.{
  ℕ, ◌≡◌, refl, sym, ap, ◌∙◌, ◌↔◌, inl, inr, true, false, Option, List, [], ◌∷◌, ◌++◌, Bool-cases,
  All, ◌≢◌, ◌⊎◌, false, none, some, append-nil, append_assoc, subst, arith, ◌==◌, ==_iff,
}
use ugpibd.Prelude.Text.{list_eq, list_eq_self, list_eq→eq}
use ugpibd.Backend.Select.{
  DiscoveredAdapter, UsbSelector, port, Os, of_backend, of_port, segment_from, next_segment,
  last_segment, auto_select, at_port, linux, macos, other, port_input_matches,
  linux_port_input_matches,
}

-- No `/` in the text.
abbrev pub NoSlash : List ℕ → Type 0
NoSlash text = All (λ c. c ≢ b'/') text

-- The text is what follows the last `/`, or has none.
abbrev pub IsTail : (input tail : List ℕ) → Type 0
IsTail input tail =
    NoSlash tail × ((tail ≡ input) ⊎ ((before : List ℕ) × (input ≡ before ++ b'/' ∷ tail)))

NoSlash-append :
    (segment : List ℕ) (c : ℕ) → NoSlash segment → c ≢ b'/' → NoSlash (segment ++ c ∷ [])
NoSlash-append [] c h n = (n, tt)
NoSlash-append (x ∷ xs) c h n = (h.0, NoSlash-append xs c h.1 n)

-- What the scan gives from a segment that it has begun.
segment_from-tail :
    (segment input : List ℕ)
    → NoSlash segment
    → let tail = segment_from segment input in
      NoSlash tail
      × ((tail ≡ segment ++ input) ⊎ ((before : List ℕ) × (input ≡ before ++ b'/' ∷ tail)))
unfolding segment_from
segment_from-tail segment [] h = (h, inl (sym (append-nil segment)))
segment_from-tail segment (c ∷ rest) h = elim (Bool-cases (c == b'/')) [
  | inl e ↦
      let t = segment_from-tail [] rest tt in
      rw e (
        t.0,
        inr (elim t.1 [
          | inl same ↦
              ([], ap (◌∷◌ c) (sym same) ∙ ap (λ x. x ∷ segment_from [] rest) ((==_iff c b'/').0 e))
          | inr (before, eq) ↦ (c ∷ before, ap (◌∷◌ c) eq)
        ]),
      )
  | inr e ↦
      let t =
        segment_from-tail (segment ++ c ∷ []) rest
          (NoSlash-append segment c h (ground (arith, e))) in
      rw e (
        t.0,
        elim t.1 [
          | inl same ↦ inl (same ∙ append_assoc segment (c ∷ []) rest)
          | inr (before, eq) ↦ inr (c ∷ before, ap (◌∷◌ c) eq)
        ],
      )
]

segment_from-plain :
    (segment tail : List ℕ) → NoSlash tail → segment_from segment tail ≡ segment ++ tail
unfolding segment_from
segment_from-plain segment [] h = sym (append-nil segment)
segment_from-plain segment (c ∷ rest) h =
    let e : (c == b'/') ≡ false = ground (arith, h.0) in
    rw e (segment_from-plain (segment ++ c ∷ []) rest h.1 ∙ append_assoc segment (c ∷ []) rest)

segment_from-last :
    (segment before tail : List ℕ)
    → NoSlash tail
    → segment_from segment (before ++ b'/' ∷ tail) ≡ tail
unfolding segment_from
segment_from-last segment [] tail h = segment_from-plain [] tail h
segment_from-last segment (c ∷ before) tail h =
    segment_from-last (next_segment segment c) before tail h

last_segment-IsTail : (input tail : List ℕ) → (last_segment input ≡ tail) ↔ IsTail input tail
last_segment-IsTail input tail = (
  λ e. subst (IsTail input) e (segment_from-tail [] input tt),
  λ t. elim t.1 [
    | inl same ↦ ap (segment_from []) (sym same) ∙ segment_from-plain [] tail t.0
    | inr (before, eq) ↦ ap (segment_from []) eq ∙ segment_from-last [] before tail t.0
  ],
)

-- The port that the operator names is that of an adapter: its id, or on Linux a path whose last
-- part is its id. The numbers of macOS are left out.
abbrev pub IsAt : Os → (want port_id : List ℕ) → Type 0
IsAt linux want port_id = (want ≡ port_id) ⊎ IsTail want port_id
IsAt macos want port_id = ⊥
IsAt other want port_id = want ≡ port_id

abbrev pub IsOf : Option (List ℕ) → DiscoveredAdapter → Type 0
IsOf none a = Unit
IsOf (some id) a = a.kind_id ≡ id

abbrev pub IsSelected : Os → UsbSelector → DiscoveredAdapter → Type 0
IsSelected os auto_select a = Unit
IsSelected os (at_port want) a = IsAt os want a.port_id

-- What the operator asks for: the backend, if one is named, and the port, if one is.
abbrev pub IsWanted : Os → Option (List ℕ) → UsbSelector → DiscoveredAdapter → Type 0
IsWanted os backend selector a = IsOf backend a × IsSelected os selector a

list_eq_iff : (xs ys : List ℕ) → (list_eq xs ys ≡ true) ↔ (xs ≡ ys)
list_eq_iff xs ys =
    (list_eq→eq xs ys, λ e. subst (λ (zs : List ℕ). list_eq xs zs ≡ true) e (list_eq_self xs))

pub of_backend-IsOf :
    (backend : Option (List ℕ)) (a : DiscoveredAdapter)
    → (of_backend backend a ≡ true) ↔ IsOf backend a
of_backend-IsOf none a = (λ e. tt, λ u. refl)
of_backend-IsOf (some id) a = list_eq_iff a.kind_id id

linux_port-IsAt :
    (port_id want : List ℕ)
    → (linux_port_input_matches port_id want ≡ true) ↔ IsAt linux want port_id
unfolding linux_port_input_matches
linux_port-IsAt port_id want =
    let same = list_eq_iff want port_id in
    let tail = list_eq_iff (last_segment want) port_id in
    let is_tail = last_segment-IsTail want port_id in
    (
      λ e. elim (Bool-cases (list_eq want port_id)) [
        | inl h ↦ inl (same.0 h)
        | inr h ↦ inr (is_tail.0 (tail.0 (ground (arith, e, h))))
      ],
      λ at. elim at [
        | inl h ↦ rw (same.1 h) refl
        | inr h ↦ elim (Bool-cases (list_eq want port_id)) [
          | inl h' ↦ rw h' refl
          | inr h' ↦ rw (h', tail.1 (is_tail.1 h)) refl
        ]
      ],
    )

pub of_port-IsSelected :
    (os : Os) (selector : UsbSelector) (a : DiscoveredAdapter)
    → os ≢ macos
    → (of_port os (port selector) a ≡ true) ↔ IsSelected os selector a
unfolding port port_input_matches
of_port-IsSelected os auto_select a ne = (λ e. tt, λ u. refl)
of_port-IsSelected linux (at_port want) a ne = linux_port-IsAt a.port_id want
of_port-IsSelected macos (at_port want) a ne = absurd (ne refl)
of_port-IsSelected other (at_port want) a ne = list_eq_iff want a.port_id
