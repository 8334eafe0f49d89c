-- ===== src/RunCommand/Executions/Running.antt =====
-- exec.go and output.go: what each operation does to the map of running executions.
use kcd.Base.{
  ℕ, ◌≡◌, refl, ap, inl, inr, String, Bool, true, ◌||◌, Option, none, some, List, [], ◌∷◌, ◌++◌,
  map, arith, ◌==◌, if◌then◌else◌, str_eq, str_eq_iff, lookup, insert, delete, lookup-insert,
  lookup-delete, Bool-cases, Option-cases, any,
}
use kcd.RunCommand.Executions.{
  Executions, find_id, delete_id, running_of, register_running, stop_all, finish_output,
}

pub find_id-delete_id :
    (id wanted : ℕ) (es : List (ℕ × ℕ))
    → find_id wanted (delete_id id es) ≡ (if id == wanted then none else find_id wanted es)
unfolding find_id delete_id
find_id-delete_id id wanted [] = ground arith
find_id-delete_id id wanted ((other, n) ∷ es) = ground (arith, find_id-delete_id id wanted es)

abbrev entries : Option (List (ℕ × ℕ)) → List (ℕ × ℕ)
entries o = elim o [ none ↦ [] | some es ↦ es ]

pub running_of-register_running :
    (dev : String) (id n : ℕ) (p : Executions) (dev' : String)
    → running_of dev' (register_running dev id n p)
      ≡ (if str_eq dev dev' then (id, n) ∷ delete_id id (running_of dev p) else running_of dev' p)
unfolding register_running running_of
running_of-register_running dev id n p dev' =
    ground (arith, lookup-insert dev dev' ((id, n) ∷ delete_id id (running_of dev p)) p.running)

pub running_of-stop_all :
    (dev : String) (p : Executions) (dev' : String)
    → running_of dev' (stop_all dev p) ≡ (if str_eq dev dev' then [] else running_of dev' p)
unfolding stop_all running_of
running_of-stop_all dev p dev' = ground (arith, lookup-delete dev dev' p.running)

-- The map without a device that runs nothing.
abbrev left : String → List (ℕ × ℕ) → List (String × List (ℕ × ℕ)) → List (String × List (ℕ × ℕ))
left dev es running = elim es [ [] ↦ delete dev running | e ∷ rest ↦ insert dev (e ∷ rest) running ]

lookup-left :
    (dev dev' : String) (es : List (ℕ × ℕ)) (running : List (String × List (ℕ × ℕ)))
    → entries (lookup dev' (left dev es running))
      ≡ (if str_eq dev dev' then es else entries (lookup dev' running))
lookup-left dev dev' [] running = ground (arith, lookup-delete dev dev' running)
lookup-left dev dev' (e ∷ es) running = ground (arith, lookup-insert dev dev' (e ∷ es) running)

pub running_of-finish_output :
    (dev : String) (id n : ℕ) (p : Executions) (dev' : String)
    → running_of dev' (finish_output dev id n p)
      ≡ (if str_eq dev dev' then delete_id id (running_of dev p) else running_of dev' p)
unfolding finish_output running_of delete_id
running_of-finish_output dev id n p dev' = elim (Option-cases (lookup dev p.running)) [
  | inl e ↦ ground (arith, e, str_eq_iff dev dev')
  | inr (es, e) ↦ ground (arith, e, lookup-left dev dev' (delete_id id es) p.running)
]

-- No id stands twice.
abbrev pub UniqueIds : List (ℕ × ℕ) → Type 0
UniqueIds [] = Unit
UniqueIds ((id, n) ∷ es) = (find_id id es ≡ none) × UniqueIds es

pub delete_id-UniqueIds : (id : ℕ) (es : List (ℕ × ℕ)) → UniqueIds es → UniqueIds (delete_id id es)
unfolding delete_id
delete_id-UniqueIds id [] h = tt
delete_id-UniqueIds id ((other, n) ∷ es) (h, k) = elim (Bool-cases (other == id)) [
  | inl e ↦ rw e (delete_id-UniqueIds id es k)
  | inr e ↦ rw e ((ground (arith, find_id-delete_id id other es, h), delete_id-UniqueIds id es k))
]

abbrev pub holds : ℕ → List ℕ → Bool
holds n ms = any (λ m. m == n) ms

pub find_id-holds :
    (id n : ℕ) (es : List (ℕ × ℕ)) → find_id id es ≡ some n → holds n (map (λ e. e.1) es) ≡ true
unfolding find_id
find_id-holds id n [] h = ground arith
find_id-holds id n ((other, m) ∷ es) h = elim (Bool-cases (other == id)) [
  | inl e ↦ ground (arith, e)
  | inr e ↦ ground (arith, e, find_id-holds id n es)
]

pub holds-find_id :
    (n : ℕ) (es : List (ℕ × ℕ))
    → UniqueIds es
    → holds n (map (λ e. e.1) es) ≡ true
    → (id : ℕ) × (find_id id es ≡ some n)
unfolding find_id
holds-find_id n [] u h = ground arith
holds-find_id n ((id, m) ∷ es) (u, k) h = elim (Bool-cases (m == n)) [
  | inl e ↦ (id, ground (arith, e))
  | inr e ↦
      let (x, f) = holds-find_id n es k (rw e at h) in
      let u' : find_id id es ≡ none = u in (x, ground (arith, u', f))
]

-- The goroutine that a stop of this id reaches.
abbrev pub reached : String → ℕ → Executions → Option ℕ
reached dev id p = find_id id (running_of dev p)

pub holds-append : (n : ℕ) (ms ks : List ℕ) → holds n (ms ++ ks) ≡ (holds n ms || holds n ks)
holds-append n [] ks = refl
holds-append n (m ∷ ms) ks = ground (arith, holds-append n ms ks)

pub found_nothing : (id n : ℕ) → find_id id [] ≡ some n → ⊥
unfolding find_id
found_nothing id n h = ground arith

pub reached-register_running :
    (dev : String) (id n : ℕ) (p : Executions) (dev' : String) (id' : ℕ)
    → reached dev' id' (register_running dev id n p) ≡ (
        if str_eq dev dev'
        then (if id == id' then some n else reached dev' id' p)
        else reached dev' id' p)
unfolding find_id
reached-register_running dev id n p dev' id' = elim (Bool-cases (str_eq dev dev')) [
  | inl e ↦
      let f : dev ≡ dev' = ground (arith, e, str_eq_iff dev dev') in
      let k : running_of dev p ≡ running_of dev' p = ap (λ t. running_of t p) f in
      rw (running_of-register_running dev id n p dev', e)
        (ground (arith, find_id-delete_id id id' (running_of dev p), k))
  | inr e ↦ rw (running_of-register_running dev id n p dev', e) (refl)
]

pub reached-finish_output :
    (dev : String) (id n : ℕ) (p : Executions) (dev' : String) (id' : ℕ)
    → reached dev' id' (finish_output dev id n p) ≡ (
        if str_eq dev dev'
        then (if id == id' then none else reached dev' id' p)
        else reached dev' id' p)
reached-finish_output dev id n p dev' id' = elim (Bool-cases (str_eq dev dev')) [
  | inl e ↦
      let f : dev ≡ dev' = ground (arith, e, str_eq_iff dev dev') in
      let k : running_of dev p ≡ running_of dev' p = ap (λ t. running_of t p) f in
      rw (running_of-finish_output dev id n p dev', e)
        (ground (arith, find_id-delete_id id id' (running_of dev p), k))
  | inr e ↦ rw (running_of-finish_output dev id n p dev', e) (refl)
]
