-- ===== src/Ipc/Spelling.antt =====
-- The wait lists of kernel/core/ipc.c, from their links to the lists that they spell.
use afriyie_os.Common.{
  ℕ, zero, suc, ◌≤◌, ◌≡◌, ◌≢◌, refl, sym, ap, subst, ◌∙◌, Option, none, some, List, [], ◌∷◌, ◌++◌,
  All, length, arith, ◌==◌, update, Bool-cases, inl, inr, ◌⊎◌,
}
use afriyie_os.Ipc.Ops.{remove}
use afriyie_os.Ipc.WaitList.{Links, tail_from, waiter_add, unlink_after, waiter_remove, waiter_pop}

-- The links spell the list, whose threads differ.
abbrev pub Spells : (ℕ → Option ℕ) → Option ℕ → List ℕ → Type 0
Spells next o [] = o ≡ none
Spells next o (x ∷ xs) = (o ≡ some x) × All (λ y. y ≢ x) xs × Spells next (next x) xs

-- Only the fields of the threads of the list matter.
Spells-frame :
    (next next' : ℕ → Option ℕ) (o : Option ℕ) (xs : List ℕ)
    → All (λ y. next' y ≡ next y) xs
    → Spells next o xs
    → Spells next' o xs
Spells-frame next next' o [] a s = s
Spells-frame next next' o (x ∷ xs) (e, a) (h, d, s) =
    (h, d, Spells-frame next next' (next' x) xs a (subst (λ q. Spells next q xs) (sym e) s))

All-both :
    (P Q R : ℕ → Type 0) (xs : List ℕ)
    → ((x : ℕ) → P x → Q x → R x)
    → All P xs
    → All Q xs
    → All R xs
All-both P Q R [] f a b = a
All-both P Q R (x ∷ xs) f (p, a) (q, b) = (f x p q, All-both P Q R xs f a b)

All-append : (P : ℕ → Type 0) (xs : List ℕ) (t : ℕ) → All P xs → P t → All P (xs ++ (t ∷ []))
All-append P [] t a p = (p, tt)
All-append P (x ∷ xs) t (q, a) p = (q, All-append P xs t a p)

All-remove : (P : ℕ → Type 0) (t : ℕ) (xs : List ℕ) → All P xs → All P (remove t xs)
unfolding remove
All-remove P t [] a = a
All-remove P t (x ∷ xs) (p, a) = elim (Bool-cases (x == t)) [
  | inl same ↦ rw (same, remove) a
  | inr other ↦ rw (other, remove) (p, All-remove P t xs a)
]

-- The tail is a thread of the list.
tail_from-All :
    (P : ℕ → Type 0) (left : ℕ) (next : ℕ → Option ℕ) (x : ℕ) (xs : List ℕ)
    → Spells next (some x) (x ∷ xs)
    → length xs ≤ left
    → All P (x ∷ xs)
    → P (tail_from left next x)
unfolding tail_from
tail_from-All P zero next x xs s le (p, a) = p
tail_from-All P (suc left) next x [] (h, d, last) le (p, a) = rw (last, tail_from) p
tail_from-All P (suc left) next x (y ∷ ys) (h, d, (link, d', s)) le (p, a) =
    rw (link, tail_from) (tail_from-All P left next y ys (refl, d', s) (omega arith) a)

add-Spells :
    (left : ℕ) (next : ℕ → Option ℕ) (x t : ℕ) (xs : List ℕ)
    → Spells next (some x) (x ∷ xs)
    → All (λ y. y ≢ t) (x ∷ xs)
    → next t ≡ none
    → length xs ≤ left
    → Spells (update next (tail_from left next x) (some t)) (some x) ((x ∷ xs) ++ (t ∷ []))
unfolding tail_from
add-Spells zero next x t [] (h, d, last) (ne, a) cleared le =
    (refl, ((λ e. ne (sym e)), tt), (ground arith, tt, ground arith))
add-Spells (suc left) next x t [] (h, d, last) (ne, a) cleared le =
    rw (last, tail_from) (refl, ((λ e. ne (sym e)), tt), (ground arith, tt, ground arith))
add-Spells zero next x t (y ∷ ys) s a cleared le = absurd (omega arith)
add-Spells (suc left) next x t (y ∷ ys) (h, d, (link, d', s)) (ne, a) cleared le =
    let tail_ne : tail_from left next y ≢ x =
      tail_from-All (λ z. z ≢ x) left next y ys (refl, d', s) (omega arith) d in
    let rest = add-Spells left next y t ys (refl, d', s) a cleared (omega arith) in
    let kept : update next (tail_from left next y) (some t) x ≡ some y = ground arith in
    let step : tail_from left next y ≡ tail_from (suc left) next x = rw (link, tail_from) refl in
    subst (λ z. Spells (update next z (some t)) (some x) ((x ∷ y ∷ ys) ++ (t ∷ []))) step
      (refl, All-append (λ z. z ≢ x) (y ∷ ys) t d (λ e. ne (sym e)), (kept, rest.1, rest.2))

-- A thread that is neither removed nor in the list keeps its field.
unlink_after-other :
    (left : ℕ) (next : ℕ → Option ℕ) (x t p : ℕ) (xs : List ℕ)
    → Spells next (some x) (x ∷ xs)
    → All (λ y. y ≢ p) (x ∷ xs)
    → p ≢ t
    → unlink_after left next x t p ≡ next p
unfolding unlink_after
unlink_after-other zero next x t p xs s a ne = refl
unlink_after-other (suc left) next x t p [] (h, d, last) a ne = rw (last, unlink_after) refl
unlink_after-other (suc left) next x t p (y ∷ ys) (h, d, (link, d', s)) (nx, a) ne =
    elim (Bool-cases (y == t)) [
      | inl same ↦ rw (link, unlink_after) (ground arith)
      | inr other ↦
          rw (link, unlink_after, other) (unlink_after-other left next y t p ys (refl, d', s) a ne)
    ]

unlink_after-Spells :
    (left : ℕ) (next : ℕ → Option ℕ) (x t : ℕ) (xs : List ℕ)
    → Spells next (some x) (x ∷ xs)
    → x ≢ t
    → length xs ≤ left
    → Spells (unlink_after left next x t) (some x) (x ∷ remove t xs)
unfolding unlink_after remove
unlink_after-Spells zero next x t [] s ne le = s
unlink_after-Spells zero next x t (y ∷ ys) s ne le = absurd (omega arith)
unlink_after-Spells (suc left) next x t [] (h, d, last) ne le =
    let same : next ≡ unlink_after (suc left) next x t = rw (last, unlink_after) refl in
    subst (λ n. Spells n (some x) (x ∷ [])) same (h, d, last)
unlink_after-Spells (suc left) next x t (y ∷ ys) (h, d, (link, d', s)) ne le =
    elim (Bool-cases (y == t)) [
      | inl hit ↦
          let out : ℕ → Option ℕ = update (update next x (next t)) t none in
          let same : out ≡ unlink_after (suc left) next x t = rw (link, unlink_after, hit) refl in
          let at : y ≡ t = ground (arith, hit) in
          let here : out x ≡ next y = ground (arith, at, link) in
          let kept : All (λ z. out z ≡ next z) ys =
            All-both (λ z. z ≢ y) (λ z. z ≢ x) (λ z. out z ≡ next z) ys (λ z nt nx. ground arith) d'
              d.1 in
          subst (λ n. Spells n (some x) (x ∷ remove t (y ∷ ys))) same
            (rw (hit, remove)
              (
                refl,
                d.1,
                subst (λ o. Spells out o ys) (sym here) (Spells-frame next out (next y) ys kept s),
              ))
      | inr miss ↦
          let other : y ≢ t = ground arith in
          let u = unlink_after left next y t in
          let same : u ≡ unlink_after (suc left) next x t = rw (link, unlink_after, miss) refl in
          let apart : All (λ z. z ≢ x) (y ∷ ys) = d in
          let here : u x ≡ some y =
            unlink_after-other left next y t x ys (refl, d', s) apart ne ∙ link in
          let rest : Spells u (some y) (y ∷ remove t ys) =
            unlink_after-Spells left next y t ys (refl, d', s) other (omega arith) in
          subst (λ n. Spells n (some x) (x ∷ remove t (y ∷ ys))) same
            (rw (miss, remove)
              (refl, (d.0, All-remove (λ z. z ≢ x) t ys d.1), (here, rest.1, rest.2)))
    ]

add_lem :
    (left : ℕ) (w : Links) (t : ℕ) (xs : List ℕ)
    → Spells w.next w.first xs
    → length xs ≤ left
    → All (λ y. y ≢ t) xs
    → let w' = waiter_add left w t in Spells w'.next w'.first (xs ++ (t ∷ []))
unfolding waiter_add
add_lem left w t [] s le a = rw (s, waiter_add) (refl, tt, ground arith)
add_lem left w t (x ∷ xs) (h, d, s) le a =
    let cleared : ℕ → Option ℕ = update w.next t none in
    let kept =
      Spells-frame w.next cleared (some x) (x ∷ xs)
        (All-both (λ z. z ≢ t) (λ z. z ≢ t) (λ z. cleared z ≡ w.next z) (x ∷ xs)
          (λ z p q. ground arith) a a)
        (refl, d, s) in
    let out : Links = record {
      first = some x;
      next = update cleared (tail_from left cleared x) (some t);
    } in
    let same : out ≡ waiter_add left w t = rw (h, waiter_add) refl in
    subst (λ (v : Links). Spells v.next v.first ((x ∷ xs) ++ (t ∷ []))) same
      (add-Spells left cleared x t xs kept a (ground arith) (omega arith))

pop_lem :
    (next : ℕ → Option ℕ) (x : ℕ) (xs : List ℕ)
    → Spells next (some x) (x ∷ xs)
    → Spells (update next x none) (next x) xs
pop_lem next x xs (h, d, s) =
    Spells-frame next (update next x none) (next x) xs
      (All-both (λ z. z ≢ x) (λ z. z ≢ x) (λ z. update next x none z ≡ next z) xs
        (λ z p q. ground arith) d d)
      s

remove_lem :
    (left : ℕ) (w : Links) (t : ℕ) (xs : List ℕ)
    → Spells w.next w.first xs
    → length xs ≤ left
    → let w' = waiter_remove left w t in Spells w'.next w'.first (remove t xs)
unfolding waiter_remove remove
remove_lem left w t [] s le = rw (s, waiter_remove) s
remove_lem left w t (x ∷ xs) (h, d, s) le = elim (Bool-cases (x == t)) [
  | inl hit ↦
      let at : x ≡ t = ground (arith, hit) in
      rw (h, waiter_remove, hit, remove) (rw (← at) (pop_lem w.next x xs (refl, d, s)))
  | inr miss ↦
      let out : Links = record { first = some x; next = unlink_after left w.next x t } in
      let same : out ≡ waiter_remove left w t =
        rw (h, waiter_remove, miss) (ap (λ o. record { first = o; next = out.next }) (sym h)) in
      subst (λ (v : Links). Spells v.next v.first (remove t (x ∷ xs))) same
        (rw (miss, remove)
          (unlink_after-Spells left w.next x t xs (refl, d, s) (ground arith) (omega arith)))
]

-- Where the links spell a list of distinct threads, `waiter_add` of a thread that is not on it
-- appends the thread, `waiter_remove` takes a thread out wherever it stands, and leaves a list
-- without it as it was, and `waiter_pop` takes off and returns the first one, and NULL from an
-- empty list. The walks need no more steps than the list is long.
pub waiters_spell :
    (left : ℕ) (w : Links) (xs : List ℕ)
    → Spells w.next w.first xs
    → length xs ≤ left
    → ((t : ℕ)
        → All (λ y. y ≢ t) xs
        → let w' = waiter_add left w t in Spells w'.next w'.first (xs ++ (t ∷ [])))
      × ((t : ℕ) → let w' = waiter_remove left w t in Spells w'.next w'.first (remove t xs))
      × (let (w', o) = waiter_pop w in
          (((xs ≡ []) × (o ≡ none) × (w' ≡ w))
            ⊎ ((t : ℕ) × (ts : List ℕ) × (xs ≡ t ∷ ts)
                × (o ≡ some t)
                × Spells w'.next w'.first ts)))
unfolding waiter_pop
waiters_spell left w xs s le =
    ((λ t a. add_lem left w t xs s le a), (λ t. remove_lem left w t xs s le), popped xs s)
  where
    popped :
        (xs : List ℕ)
        → Spells w.next w.first xs
        → let (w', o) = waiter_pop w in
          (((xs ≡ []) × (o ≡ none) × (w' ≡ w))
            ⊎ ((t : ℕ) × (ts : List ℕ) × (xs ≡ t ∷ ts) × (o ≡ some t) × Spells w'.next w'.first ts))
    popped [] s = inl (
      refl,
      rw (s, waiter_pop) refl,
      rw (s, waiter_pop) (ap (λ o. record { first = o; next = w.next }) s),
    )
    popped (x ∷ xs) (h, d, s) = inr (
      x,
      xs,
      refl,
      rw (h, waiter_pop) refl,
      rw (h, waiter_pop) (pop_lem w.next x xs (refl, d, s)),
    )
