-- ===== src/Httpapi/Recent/Newest.antt =====
-- The ring lists the latest requests, the newest first.
use native.Mathlib.Nat.{mod_self, mod-eq_of_lt}
use mathlib.Core.List.{reverse, reverse_aux}
use remote_mfi.Prelude.{
  ℕ, zero, suc, ◌+◌, ◌%◌, ◌<◌, ◌≡◌, ◌≢◌, refl, ap, ◌∙◌, List, [], ◌∷◌, Option, none, some, arith,
  length, get_elem?, set, ltb, drop, ◌||◌, ◌⊎◌, lt→ltb, ltb→lt, ltb→le, ◌==◌, if◌then◌else◌, min,
  take, Bool-cases, inl, inr, length-set, take_of_length-le, length-replicate,
}
use remote_mfi.Httpapi.Recent.{
  RecentRequest, RecentStore, new_recent_store, add, count, slot, newest_from, list_newest_first,
}

get_elem?-set_self {ℓ} :
    {A : Type ℓ} (xs : List A) (i : ℕ) (v : A) → i < length xs → get_elem? (set xs i v) i ≡ some v
get_elem?-set_self [] i v h = absurd (omega arith)
get_elem?-set_self (x ∷ xs) zero v h = refl
get_elem?-set_self (x ∷ xs) (suc i) v h = get_elem?-set_self xs i v (omega arith)

get_elem?-set_ne {ℓ} :
    {A : Type ℓ} (xs : List A) {i j : ℕ} (v : A) → i ≢ j → get_elem? (set xs i v) j ≡ get_elem? xs j
get_elem?-set_ne [] v h = refl
get_elem?-set_ne (x ∷ xs) {i = zero} {j = zero} v h = absurd (h refl)
get_elem?-set_ne (x ∷ xs) {i = zero} {j = suc j} v h = refl
get_elem?-set_ne (x ∷ xs) {i = suc i} {j = zero} v h = refl
get_elem?-set_ne (x ∷ xs) {i = suc i} {j = suc j} v h = get_elem?-set_ne xs v (λ e. h (ap suc e))

-- The store holds this history, whose newest request comes first.
pub record Holds (s : RecentStore) (history : List RecentRequest) : Type 0 where
  pub sized : length s.entries ≡ s.capacity
  pub room : s.next < s.capacity
  pub counted : count s ≡ min (length history) s.capacity
  pub held : (i : ℕ) → i < count s → get_elem? s.entries (slot s i) ≡ get_elem? history i

pub new_recent_store-Holds : (capacity : ℕ) → 0 < capacity → Holds (new_recent_store capacity) []
unfolding new_recent_store
new_recent_store-Holds capacity positive = record {
  sized = length-replicate capacity _;
  room = positive;
  counted = omega arith;
  held = λ i below. absurd (omega arith);
}

advance :
    (next capacity : ℕ)
    → next < capacity
    → (next + 1) % capacity ≡ (if ltb (next + 1) capacity then next + 1 else 0)
advance next capacity room = elim (Bool-cases (ltb (next + 1) capacity)) [
  | inl more ↦ rw more (mod-eq_of_lt (ltb→lt (next + 1) capacity more))
  | inr last ↦
      let end : next + 1 ≡ capacity = omega (arith, ltb→le (next + 1) capacity last) in
      rw last (ap (λ k. k % capacity) end ∙ mod_self capacity)
]

-- The store after `add`, with its next position
abbrev added : ℕ → RecentRequest → RecentStore → RecentStore
added next' entry s = record {
  capacity = s.capacity;
  entries = set s.entries s.next entry;
  next = next';
  full = next' == 0 || s.full;
}

-- The next position is one further, or the first again.
IsNext : ℕ → RecentStore → Type 0
IsNext next' s = (next' ≡ s.next + 1 × next' < s.capacity) ⊎ (next' ≡ 0 × s.next + 1 ≡ s.capacity)

module _ (s : RecentStore) (entry : RecentRequest) (history : List RecentRequest)
    (h : Holds s history) where
  open h use {sized, room, counted, held}

  count-added :
      (next' : ℕ)
      → IsNext next' s
      → count (added next' entry s) ≡ min (length (entry ∷ history)) s.capacity
  unfolding IsNext
  count-added next' (inl (one, below)) = ground arith
  count-added next' (inr (zeroth, last)) = ground arith

  slot_new : (next' : ℕ) → IsNext next' s → slot (added next' entry s) 0 ≡ s.next
  unfolding IsNext
  slot_new next' (inl (one, below)) = ground arith
  slot_new next' (inr (zeroth, last)) = ground arith

  slot_old :
      (next' i : ℕ)
      → IsNext next' s
      → suc i < count (added next' entry s)
      → (slot (added next' entry s) (suc i) ≡ slot s i) × (i < count s) × (s.next ≢ slot s i)
  unfolding IsNext
  slot_old next' i (inl (one, below)) old = ground arith
  slot_old next' i (inr (zeroth, last)) old = ground arith

  added-Holds : (next' : ℕ) → IsNext next' s → Holds (added next' entry s) (entry ∷ history)
  unfolding IsNext
  added-Holds next' step = record {
    sized = length-set s.entries s.next entry ∙ sized;
    room = inside step;
    counted = count-added next' step;
    held = kept;
  }
    where
      inside : IsNext next' s → next' < s.capacity
      inside (inl (one, below)) = below
      inside (inr (zeroth, last)) = omega arith

      kept :
          (i : ℕ)
          → i < count (added next' entry s)
          → get_elem? (set s.entries s.next entry) (slot (added next' entry s) i)
            ≡ get_elem? (entry ∷ history) i
      kept zero below =
          rw (slot_new next' step)
            (get_elem?-set_self s.entries s.next entry (omega (arith, sized, room)))
      kept (suc i) below =
          let (same, old, other) = slot_old next' i step below in
          rw same (get_elem?-set_ne s.entries entry other ∙ held i old)

  next-IsNext : IsNext ((s.next + 1) % s.capacity) s
  unfolding IsNext
  next-IsNext =
      let eq = advance s.next s.capacity room in
      elim (Bool-cases (ltb (s.next + 1) s.capacity)) [
        | inl more ↦ inl (eq ∙ ap (λ b. if b then s.next + 1 else 0) more, ground arith)
        | inr last ↦ inr (
          eq ∙ ap (λ b. if b then s.next + 1 else 0) last,
          omega (arith, ltb→le (s.next + 1) s.capacity last),
        )
      ]

  -- `add` does not panic, and its store holds the request before the others.
  pub add-Holds : (s' : RecentStore) × (add entry s ≡ some s') × Holds s' (entry ∷ history)
  unfolding add
  add-Holds =
      let inside = lt→ltb s.next (length s.entries) (omega (arith, sized, room)) in
      (added ((s.next + 1) % s.capacity) entry s, rw inside, added-Holds _ next-IsNext)

-- What `newest_from` reads
newest_from-Holds :
    (s : RecentStore) (history : List RecentRequest)
    → Holds s history
    → (n offset : ℕ) → n + offset ≡ count s
    → newest_from s n offset ≡ some (take n (drop offset history))
unfolding newest_from
newest_from-Holds s history h zero offset e = refl
newest_from-Holds s history h (suc n) offset e =
    let (x, there, front) = element history offset (omega (arith, h.counted)) in
    rw (
      h.held offset (omega arith),
      there,
      front,
      newest_from-Holds s history h n (suc offset) (omega arith),
    )
  where
    element :
        (xs : List RecentRequest) (i : ℕ)
        → i < length xs
        → (x : RecentRequest) × (get_elem? xs i ≡ some x) × (drop i xs ≡ x ∷ drop (suc i) xs)
    element [] i below = absurd (omega arith)
    element (x ∷ xs) zero below = (x, refl, refl)
    element (x ∷ xs) (suc i) below = element xs i (omega arith)

list_newest_first-Holds :
    (s : RecentStore) (history : List RecentRequest)
    → Holds s history
    → list_newest_first s ≡ some (take s.capacity history)
unfolding list_newest_first
list_newest_first-Holds s history h =
    newest_from-Holds s history h (count s) 0 (omega arith)
    ∙ ap (λ xs. some xs) (rw h.counted (shorter s.capacity history))
  where
    shorter : (n : ℕ) (xs : List RecentRequest) → take (min (length xs) n) xs ≡ take n xs
    shorter zero xs = let e : min (length xs) 0 ≡ 0 = omega arith in ap (λ k. take k xs) e
    shorter (suc n) [] = take_of_length-le _ [] (omega arith)
    shorter (suc n) (x ∷ xs) =
        let e : min (length (x ∷ xs)) (suc n) ≡ suc (min (length xs) n) = omega arith in
        rw e (ap (◌∷◌ x) (shorter n xs))

-- Adds the requests of a list in its order.
abbrev pub add_all : List RecentRequest → RecentStore → Option RecentStore
add_all [] s = some s
add_all (r ∷ rs) s = elim (add r s) [ none ↦ none | some s' ↦ add_all rs s' ]

add-capacity :
    (s s' : RecentStore) (r : RecentRequest) → add r s ≡ some s' → s'.capacity ≡ s.capacity
unfolding add
add-capacity s s' r e = ground arith

add_all-Holds :
    (rs : List RecentRequest) (s : RecentStore) (history : List RecentRequest)
    → Holds s history
    → (s' : RecentStore) × (add_all rs s ≡ some s')
      × (s'.capacity ≡ s.capacity)
      × Holds s' (reverse_aux rs history)
add_all-Holds [] s history h = (s, refl, refl, h)
add_all-Holds (r ∷ rs) s history h =
    let (s', same, kept) = add-Holds s r history h in
    let (s'', e, size, h'') = add_all-Holds rs s' (r ∷ history) kept in
    (s'', rw (same, add_all) e, size ∙ add-capacity s s' r same, h'')

-- A store of positive capacity to which any requests are added, in their order, never panics, neither when
-- adding nor when listing, and lists the latest of them, as many as the capacity, the newest first.
pub list_newest_first-latest :
    (capacity : ℕ) (rs : List RecentRequest)
    → 0 < capacity
    → (s : RecentStore) × (add_all rs (new_recent_store capacity) ≡ some s)
      × (list_newest_first s ≡ some (take capacity (reverse rs)))
unfolding new_recent_store
list_newest_first-latest capacity rs positive =
    let (s, e, size, h) =
      add_all-Holds rs (new_recent_store capacity) [] (new_recent_store-Holds capacity positive) in
    (s, e, list_newest_first-Holds s (reverse rs) h ∙ ap (λ n. some (take n (reverse rs))) size)
