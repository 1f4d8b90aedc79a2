-- ===== src/Command/Flags/Apart.antt =====
-- The names that cmd/mdp/main.go accepts, and the files that it derives from them.
use mathlib.Core.List.{append_cancel_left, append_cancel_right}
use real_time_market_data_pi.Base.{
  ◌-◌, ◌≡◌, ◌≢◌, ◌↔◌, refl, sym, ap, ◌∙◌, inl, inr, Bool, true, false, Bool-cases, List, [], ◌∷◌,
  ◌++◌, append-nil, append_assoc, map, length, take, same, list_eq, nat_eq, list_beq_iff,
  if◌then◌else◌, subst, arith,
}
use real_time_market_data_pi.Base.Bytes.{Str}
use real_time_market_data_pi.Base.Text.{to_lower, trim_space, split}
use real_time_market_data_pi.Store.{is_blank}
use real_time_market_data_pi.Command.Flags.{
  names, listed_twice, member, requested, strategies_from, parse_strategies, ext, state_path_for,
}

-- No text stands twice.
abbrev pub IsDistinct : List Str → Type 0
IsDistinct [] = Unit
IsDistinct (x ∷ xs) = (member x xs ≡ false) × IsDistinct xs

-- The names that are asked for: in lower case, without the spaces around them and without blanks.
abbrev pub asked : List Str → List Str
asked [] = []
asked (f ∷ fs) =
    let name = to_lower (trim_space f) in
    let rest = asked fs in if is_blank name then rest else name ∷ rest

member_snoc :
    (k x : Str) (xs : List Str)
    → member k (xs ++ (x ∷ [])) ≡ (if member k xs then true else if same x k then true else false)
member_snoc k x [] = refl
member_snoc k x (y ∷ ys) = ground (arith, member_snoc k x ys)

IsDistinct-snoc :
    (x : Str) (xs : List Str) → IsDistinct xs → member x xs ≡ false → IsDistinct (xs ++ (x ∷ []))
IsDistinct-snoc x [] d m = (refl, tt)
IsDistinct-snoc x (y ∷ ys) d m = (
  member_snoc y x ys ∙ ground (arith, d.0, m, list_beq_iff x y, list_beq_iff y x),
  IsDistinct-snoc x ys d.1 (ground (arith, m)),
)

-- A text that stands before another is not that text.
IsDistinct-apart : (x : Str) (xs ys : List Str) → IsDistinct (xs ++ (x ∷ ys)) → member x xs ≡ false
IsDistinct-apart x [] ys d = refl
IsDistinct-apart x (z ∷ zs) ys d = ground (
  arith,
  IsDistinct-apart x zs ys d.1,
  member_middle z zs d.0,
  list_beq_iff x z,
  list_beq_iff z x,
)
  where
    member_middle : (z : Str) (zs : List Str) → member z (zs ++ (x ∷ ys)) ≡ false → same x z ≡ false
    member_middle z [] h = ground (arith, h)
    member_middle z (w ∷ ws) h = ground (arith, h, member_middle z ws)

-- What the loop accepts.
abbrev Accepts : List Str → List Str → List Str → Type 0
Accepts fs out ns = (ns ≡ out ++ asked fs) × IsDistinct ns × (ns ≢ [])

names_inj : {a b : List Str} → names a ≡ names b → a ≡ b
names_inj e = cc

not_names : {k : Str} {ns : List Str} → listed_twice k ≡ names ns → ⊥
not_names e = cc

both : {b : Bool} → b ≡ false → b ≡ true → ⊥
both p q = cc

requested_iff : (xs ns : List Str) → (requested xs ≡ names ns) ↔ ((ns ≡ xs) × (ns ≢ []))
unfolding requested
requested_iff [] ns = (λ e. cc, λ (p, q). absurd (q p))
requested_iff (x ∷ xs) ns = (λ e. (sym (names_inj e), λ q. cc), λ (p, q). ap names (sym p))

strategies_from_iff :
    (fs out ns : List Str)
    → IsDistinct out
    → (strategies_from fs out ≡ names ns) ↔ Accepts fs out ns
unfolding strategies_from
strategies_from_iff [] out ns d = (
  λ e.
      let (p, q) = (requested_iff out ns).0 e in
      (p ∙ sym (append-nil out), subst IsDistinct (sym p) d, q),
  λ (p, q, r). (requested_iff out ns).1 (p ∙ append-nil out, r),
)
strategies_from_iff (f ∷ fs) out ns d =
    let name = to_lower (trim_space f) in
    elim (Bool-cases (is_blank name)) [
      | inl blank ↦ rw (blank, strategies_from) (strategies_from_iff fs out ns d)
      | inr n ↦ elim (Bool-cases (member name out)) [
        | inl twice ↦
            rw (n, twice, strategies_from)
              (
                λ e. elim (not_names e) [ ],
                λ (p, q, r).
                    let apart = IsDistinct-apart name out (asked fs) (subst IsDistinct p q) in
                    elim (both apart twice) [ ],
              )
        | inr fresh ↦
            let ih =
              strategies_from_iff fs (out ++ (name ∷ [])) ns (IsDistinct-snoc name out d fresh) in
            let shift = append_assoc out (name ∷ []) (asked fs) in
            rw (n, fresh, strategies_from)
              (
                λ e. let (p, q, r) = ih.0 e in (p ∙ shift, q, r),
                λ (p, q, r). ih.1 (p ∙ sym shift, q, r),
              )
      ]
    ]

-- A list of strategies is accepted exactly where, in lower case and without the spaces around them
-- and the blank ones, no name stands twice and there is one at all; the names are then these, in
-- order.
pub parse_strategies_iff :
    (raw : Str) (ns : List Str)
    → (parse_strategies raw ≡ names ns)
      ↔ ((ns ≡ asked (split b',' raw)) × IsDistinct ns × (ns ≢ []))
unfolding parse_strategies
parse_strategies_iff raw ns = strategies_from_iff (split b',' raw) [] ns tt

-- The file of a name tells the name.
pub state_path_for_inj : (base m n : Str) → state_path_for base m ≡ state_path_for base n → m ≡ n
unfolding state_path_for
state_path_for_inj base m n e =
    let stem = take (length base - length (ext base)) base in
    append_cancel_left (b'-' ∷ []) m n (
      append_cancel_left stem (b'-' ∷ m) (b'-' ∷ n)
        (append_cancel_right (stem ++ (b'-' ∷ m)) (stem ++ (b'-' ∷ n)) (ext base) e))

member-state_path_for :
    (base n : Str) (ns : List Str)
    → member n ns ≡ false
    → member (state_path_for base n) (map (state_path_for base) ns) ≡ false
member-state_path_for base n [] h = refl
member-state_path_for base n (k ∷ ks) h = ground (
  arith,
  h,
  member-state_path_for base n ks,
  list_beq_iff k n,
  list_beq_iff (state_path_for base k) (state_path_for base n),
  state_path_for_inj base k n,
)

IsDistinct-state_path_for :
    (base : Str) (ns : List Str) → IsDistinct ns → IsDistinct (map (state_path_for base) ns)
IsDistinct-state_path_for base [] d = tt
IsDistinct-state_path_for base (n ∷ ns) d =
    (member-state_path_for base n ns d.0, IsDistinct-state_path_for base ns d.1)

-- The accounts of the strategies that are accepted have their own names and their own files,
-- whatever the path is that the files are derived from.
pub books_apart :
    (raw base : Str) (ns : List Str)
    → parse_strategies raw ≡ names ns
    → IsDistinct ns × IsDistinct (map (state_path_for base) ns)
books_apart raw base ns e =
    let (p, d, r) = (parse_strategies_iff raw ns).0 e in (d, IsDistinct-state_path_for base ns d)
