-- ===== src/Mpris/Healed.antt =====
-- reconcile.go: after a reconciliation the players that are tracked are those that are there.
use kcd.Base.{
  ◌≡◌, refl, ap, String, Bool, false, not, ◌&&◌, ◌||◌, List, [], ◌∷◌, arith, any, str_eq,
  str_eq_iff, lookup, is_some, Bool-cases, inl, inr,
}
use kcd.Mpris.{PlayerEntry, to_add, to_drop, diff_tracked}

-- A player has this bus name.
abbrev pub owned : String → List PlayerEntry → Bool
owned n es = any (λ (e : PlayerEntry). str_eq e.bus_name n) es

owned-to_add :
    (n : String) (es : List PlayerEntry) (tracked : List (String × String))
    → owned n (to_add es tracked) ≡ (owned n es && not (is_some (lookup n tracked)))
unfolding to_add
owned-to_add n [] tracked = refl
owned-to_add n (e ∷ es) tracked = elim (Bool-cases (str_eq e.bus_name n)) [
  | inl same ↦
      let w : e.bus_name ≡ n = ground (arith, same, str_eq_iff e.bus_name n) in
      let l : is_some (lookup e.bus_name tracked) ≡ is_some (lookup n tracked) =
        ap (λ t. is_some (lookup t tracked)) w in
      ground (arith, same, l, owned-to_add n es tracked)
  | inr other ↦ ground (arith, other, owned-to_add n es tracked)
]

any-to_drop :
    (n : String) (es : List PlayerEntry) (tracked : List (String × String))
    → any (λ m. str_eq m n) (to_drop es tracked) ≡ (is_some (lookup n tracked) && not (owned n es))
unfolding to_drop lookup
any-to_drop n es [] = refl
any-to_drop n es ((m, display) ∷ tracked) = elim (Bool-cases (str_eq m n)) [
  | inl same ↦
      let w : m ≡ n = ground (arith, same, str_eq_iff m n) in
      let l : owned m es ≡ owned n es = ap (λ t. owned t es) w in
      ground (arith, same, l, any-to_drop n es tracked)
  | inr other ↦ ground (arith, other, any-to_drop n es tracked)
]

-- A reconciliation heals the drift between the bus and the plugin. What was tracked, with what is to
-- be added and without what is to be dropped, is exactly the bus names of the players that were
-- listed; and nothing is to be added that was tracked, nor dropped that was not.
pub diff_tracked_lem :
    (n : String) (entries : List PlayerEntry) (tracked : List (String × String))
    → let (add, drop) = diff_tracked entries tracked in
      (((is_some (lookup n tracked) || owned n add) && not (any (λ m. str_eq m n) drop))
        ≡ owned n entries)
      × ((owned n add && is_some (lookup n tracked)) ≡ false)
      × ((any (λ m. str_eq m n) drop && not (is_some (lookup n tracked))) ≡ false)
unfolding diff_tracked
diff_tracked_lem n entries tracked =
    let a = owned-to_add n entries tracked in
    let d = any-to_drop n entries tracked in
    (ground (arith, a, d), ground (arith, a), ground (arith, d))
