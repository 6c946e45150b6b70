-- ===== src/Bootstrap/Tab/Selected.antt =====
-- One tab is selected.
use crunchy_containers.Prelude.{
  ℕ, zero, suc, ◌<◌, Bool, true, false, not, ◌&&◌, ◌≡◌, ◌≢◌, refl, sym, ap, ◌∙◌, arith, subst, List,
  [], ◌∷◌, length, get_elem?, if◌then◌else◌, if_then, if_else,
}
use crunchy_containers.Bootstrap.Tab.{
  Item, flags, modify_set, modify, deactivate, activate_item, leave, next, any, is_active,
}

-- An item that is not active, and the active one, which can be seen.
abbrev pub Idle : Item → Type 0
Idle x = (x.active ≡ false) × (x.expanded ≡ false)

abbrev pub Active : Item → Type 0
Active x = (x.active ≡ true) × (x.expanded ≡ true) × ((x.fade && not x.in_class) ≡ false)

abbrev pub AllIdle : List Item → Type 0
AllIdle [] = Unit
AllIdle (x ∷ xs) = Idle x × AllIdle xs

abbrev pub OnlyActive : ℕ → List Item → Type 0
OnlyActive k [] = ⊥
OnlyActive zero (x ∷ xs) = Active x × AllIdle xs
OnlyActive (suc k) (x ∷ xs) = Idle x × OnlyActive k xs

idle_if : (f : Item → Item) (x : Item) → x.active ≡ false → (if x.active then f x else x) ≡ x
idle_if f x h = if_else x.active (f x) x h

-- A change of the active items, where there is none.
modify_set-AllIdle :
    (f : Item → Item) (xs : List Item) → AllIdle xs → modify_set f (flags xs) xs ≡ xs
modify_set-AllIdle f [] h = refl
modify_set-AllIdle f (x ∷ xs) h =
    ap (λ y. y ∷ modify_set f (flags xs) xs) (idle_if f x h.0.0)
    ∙ ap (λ ys. x ∷ ys) (modify_set-AllIdle f xs h.1)

deactivate-AllIdle :
    (i : ℕ) (xs : List Item) → OnlyActive i xs → AllIdle (modify_set deactivate (flags xs) xs)
deactivate-AllIdle i [] h = tt
deactivate-AllIdle zero (x ∷ xs) h = (
  subst Idle (sym (if_then x.active (deactivate x) x h.0.0)) (refl, refl),
  subst AllIdle (sym (modify_set-AllIdle deactivate xs h.1)) h.1,
)
deactivate-AllIdle (suc i) (x ∷ xs) h =
    (subst Idle (sym (idle_if deactivate x h.0.0)) h.0, deactivate-AllIdle i xs h.1)

-- Likewise where the active item has lost the class `in` before.
deactivate-leave-AllIdle :
    (i : ℕ) (xs : List Item)
    → OnlyActive i xs
    → AllIdle (modify_set deactivate (flags xs) (modify_set leave (flags xs) xs))
deactivate-leave-AllIdle i [] h = tt
deactivate-leave-AllIdle zero (x ∷ xs) h =
    let y = (if x.active then leave x else x) in
    (
      subst Idle (sym (if_then x.active (deactivate y) y h.0.0)) (refl, refl),
      subst (λ ys. AllIdle (modify_set deactivate (flags xs) ys))
          (sym (modify_set-AllIdle leave xs h.1))
          (subst AllIdle (sym (modify_set-AllIdle deactivate xs h.1)) h.1),
    )
deactivate-leave-AllIdle (suc i) (x ∷ xs) h = (
  subst (λ y. Idle (if x.active then deactivate y else y)) (sym (idle_if leave x h.0.0))
      (subst Idle (sym (idle_if deactivate x h.0.0)) h.0),
  deactivate-leave-AllIdle i xs h.1,
)

and_false : (b : Bool) → b && false ≡ false
and_false true = refl
and_false false = refl

activate_item-Active : (transition : Bool) (x : Item) → Active (activate_item transition x)
activate_item-Active true x = (refl, refl, and_false x.fade)
activate_item-Active false x = (refl, refl, refl)

modify-OnlyActive :
    (transition : Bool) (k : ℕ) (xs : List Item)
    → AllIdle xs
    → k < length xs
    → OnlyActive k (modify k (activate_item transition) xs)
modify-OnlyActive transition k [] h lt = absurd (omega arith)
modify-OnlyActive transition zero (x ∷ xs) h lt = (activate_item-Active transition x, h.1)
modify-OnlyActive transition (suc k) (x ∷ xs) h lt =
    (h.0, modify-OnlyActive transition k xs h.1 (omega arith))

pub length-modify_set :
    (f : Item → Item) (bs : List Bool) (xs : List Item) → length (modify_set f bs xs) ≡ length xs
length-modify_set f [] xs = refl
length-modify_set f (b ∷ bs) [] = refl
length-modify_set f (b ∷ bs) (x ∷ xs) = ap suc (length-modify_set f bs xs)

-- The active item is found at its index, and no other.
pub active_at : (i : ℕ) (xs : List Item) → OnlyActive i xs → is_active (get_elem? xs i) ≡ true
active_at i [] h = absurd h
active_at zero (x ∷ xs) h = h.0.0
active_at (suc i) (x ∷ xs) h = active_at i xs h.1

idle_at : (k : ℕ) (xs : List Item) → AllIdle xs → is_active (get_elem? xs k) ≡ false
idle_at k [] h = refl
idle_at zero (x ∷ xs) h = h.0.0
idle_at (suc k) (x ∷ xs) h = idle_at k xs h.1

pub not_active_at :
    (i k : ℕ) (xs : List Item) → OnlyActive i xs → i ≢ k → is_active (get_elem? xs k) ≡ false
not_active_at i k [] h n = refl
not_active_at zero zero (x ∷ xs) h n = absurd (n refl)
not_active_at zero (suc k) (x ∷ xs) h n = idle_at k xs h.1
not_active_at (suc i) zero (x ∷ xs) h n = h.0.0
not_active_at (suc i) (suc k) (x ∷ xs) h n = not_active_at i k xs h.1 (λ e. n (ap suc e))

leave-Idle : (b : Bool) (y : Item) → Idle y → Idle (if b then leave y else y)
leave-Idle true y h = h
leave-Idle false y h = h

leave-AllIdle : (bs : List Bool) (ys : List Item) → AllIdle ys → AllIdle (modify_set leave bs ys)
leave-AllIdle [] ys h = h
leave-AllIdle (b ∷ bs) [] h = tt
leave-AllIdle (b ∷ bs) (y ∷ ys) h = (leave-Idle b y h.0, leave-AllIdle bs ys h.1)

-- The class `in` is taken from others only.
leave-OnlyActive :
    (xs ys : List Item) (k : ℕ)
    → is_active (get_elem? xs k) ≡ false
    → OnlyActive k ys
    → OnlyActive k (modify_set leave (flags xs) ys)
leave-OnlyActive [] ys k n h = h
leave-OnlyActive (x ∷ xs) [] k n h = h
leave-OnlyActive (x ∷ xs) (y ∷ ys) zero n h =
    (subst Active (sym (if_else x.active (leave y) y n)) h.0, leave-AllIdle (flags xs) ys h.1)
leave-OnlyActive (x ∷ xs) (y ∷ ys) (suc k) n h =
    (leave-Idle x.active y h.0, leave-OnlyActive xs ys k n h.1)

-- The steps of `activate`: at once, and after a transition.
pub next-OnlyActive :
    (transition : Bool) (i k : ℕ) (xs : List Item)
    → OnlyActive i xs
    → i ≢ k
    → k < length xs
    → OnlyActive k (modify_set leave (flags xs) (next transition (flags xs) k xs))
unfolding next
next-OnlyActive transition i k xs h n lt = leave-OnlyActive xs _ k (not_active_at i k xs h n) (
    modify-OnlyActive transition k (modify_set deactivate (flags xs) xs) (deactivate-AllIdle i xs h)
      (subst (λ m. k < m) (sym (length-modify_set _ _ xs)) lt))

pub next-leave-OnlyActive :
    (i k : ℕ) (xs : List Item)
    → OnlyActive i xs
    → k < length xs
    → OnlyActive k (next true (flags xs) k (modify_set leave (flags xs) xs))
unfolding next
next-leave-OnlyActive i k xs h lt = modify-OnlyActive true k _ (deactivate-leave-AllIdle i xs h) (
    subst (λ m. k < m)
      (sym (length-modify_set _ _ (modify_set leave (flags xs) xs) ∙ length-modify_set _ _ xs)) lt)

pub any-flags : (i : ℕ) (xs : List Item) → OnlyActive i xs → any (flags xs) ≡ true
any-flags i [] h = absurd h
any-flags zero (x ∷ xs) h = rw h.0.0 refl
any-flags (suc i) (x ∷ xs) h = rw (h.0.0, any-flags i xs h.1) refl

length-modify : (f : Item → Item) (k : ℕ) (xs : List Item) → length (modify k f xs) ≡ length xs
length-modify f k [] = refl
length-modify f zero (x ∷ xs) = refl
length-modify f (suc k) (x ∷ xs) = ap suc (length-modify f k xs)

pub length-next :
    (transition : Bool) (old : List Bool) (k : ℕ) (xs : List Item)
    → length (next transition old k xs) ≡ length xs
unfolding next
length-next transition old k xs =
    length-modify (activate_item transition) k (modify_set deactivate old xs)
    ∙ length-modify_set deactivate old xs
