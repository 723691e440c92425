-- ===== src/FlatHash/Tests.antt =====
-- The map at keys of eight bytes: tests, and the theorems at concrete maps.
use pmr_market_simulator.Prelude.{
  ℕ, ◌+◌, ◌*◌, ◌<◌, ◌≡◌, refl, sym, ◌∙◌, Bool, true, false, Option, none, some, List, [], ◌∷◌,
  arith, if◌then◌else◌, suc, length,
}
use native.Mathlib.Nat.{add-zero}
use pmr_market_simulator.Prelude.Run.{Run, ok, abort, Returns, ◌>>=◌}
use pmr_market_simulator.FlatHash.{
  FlatHashMap, create, next_pow2, hash64, find_ptr, contains, erase, insert, find_or_insert,
  capacity, rehash_same_capacity, check_capacity,
}
use pmr_market_simulator.FlatHash.Keys.{id_key}
use pmr_market_simulator.FlatHash.Laws.{IsValid, contents, Erased, find_ptr-contents, erase-Erased}
use pmr_market_simulator.FlatHash.Insert.{
  Inserted, SameMap, insert-Inserted, insert-abort, create-IsValid, rehash-SameMap,
}

next_pow2_values :
    (next_pow2 0 ≡ 8) × (next_pow2 9 ≡ 16) × (next_pow2 2048 ≡ 2048) × (next_pow2 16385 ≡ 32768)
unfolding next_pow2
next_pow2_values = (refl, refl, refl, refl)

abbrev fresh_map : FlatHashMap ℕ ℕ
fresh_map = create 8 false

fresh-IsValid : IsValid fresh_map
fresh-IsValid = (create-IsValid 8 3 false (unfold next_pow2 in refl) (omega arith)).0

-- Insert, look up, erase, and insert over the tombstone.
abbrev session : Run (Bool × Option ℕ × Bool × Bool × Option ℕ × ℕ × ℕ × Bool)
session = do
  (new, m₁) ← insert fresh_map 7 70
  v ← find_ptr m₁ 7
  (again, m₂) ← insert m₁ 7 71
  (gone, m₃) ← erase m₂ 7
  w ← find_ptr m₃ 7
  (place, m₄) ← find_or_insert m₃ 9 90
  there ← contains m₄ 9
  ok (new, v, again, gone, w, m₄.size, capacity m₄, there)

session_runs : session ≡ ok (true, some 70, false, true, none, 1, 8, true)
unfolding create insert find_ptr contains erase find_or_insert hash64 capacity
session_runs = refl

insert-Inserted_example : Returns (insert fresh_map 7 70) (Inserted fresh_map 7 70)
insert-Inserted_example =
    insert-Inserted 7 70 fresh-IsValid (unfold create in refl) (unfold create in omega arith)

abbrev one_entry : FlatHashMap ℕ ℕ
one_entry = insert-Inserted_example.0.1

find_ptr-contents_example : find_ptr one_entry 7 ≡ ok (contents one_entry 7)
find_ptr-contents_example = find_ptr-contents 7 insert-Inserted_example.2.valid

erase-Erased_example : Returns (erase one_entry 7) (Erased one_entry 7)
erase-Erased_example = erase-Erased 7 insert-Inserted_example.2.valid

rehash-SameMap_example :
    (m' : FlatHashMap ℕ ℕ) × (rehash_same_capacity one_entry
      ≡ (if one_entry.allow_grow then ok m' else check_capacity m'))
    × SameMap one_entry m'
    × (m'.tombs ≡ 0)
rehash-SameMap_example = rehash-SameMap one_entry insert-Inserted_example.2.valid

-- The map after an insertion, and what the next one needs of it.
abbrev after : Run (Bool × FlatHashMap ℕ ℕ) → FlatHashMap ℕ ℕ
after (ok (b, m)) = m
after _ = fresh_map

abbrev IsReady : FlatHashMap ℕ ℕ → ℕ → Type 0
IsReady m n = IsValid m × (m.allow_grow ≡ false) × (m.size ≡ n) × (m.mask ≡ 7)

abbrev add_key : FlatHashMap ℕ ℕ → ℕ → FlatHashMap ℕ ℕ
add_key m k = after (insert m k 0)

add_key-IsReady :
    (m : FlatHashMap ℕ ℕ) (k n : ℕ)
    → IsReady m n
    → find_ptr m k ≡ ok none
    → n * 10 < 64
    → IsReady (add_key m k) (n + 1)
add_key-IsReady m k n (valid, grow, size, mask) absent room =
    let (r, run, h) = insert-Inserted k 0 valid grow (omega arith) in
    let same : ok (contents m k) ≡ ok none = sym (find_ptr-contents k valid) ∙ absent in
    let gone : contents m k ≡ none = cc in
    let new : r.0 ≡ true = h.answer.1 gone in
    rw (run, after) (h.valid, h.grow ∙ grow, ground (arith, h.size, new), h.mask ∙ mask)

abbrev add_keys : FlatHashMap ℕ ℕ → List ℕ → FlatHashMap ℕ ℕ
add_keys m [] = m
add_keys m (k ∷ ks) = add_keys (add_key m k) ks

abbrev AllNew : FlatHashMap ℕ ℕ → List ℕ → Type 0
AllNew m [] = Unit {0}
AllNew m (k ∷ ks) = (find_ptr m k ≡ ok none) × AllNew (add_key m k) ks

add_keys-IsReady :
    (m : FlatHashMap ℕ ℕ) (ks : List ℕ) (n : ℕ)
    → IsReady m n
    → AllNew m ks
    → (n + length ks) * 10 < 74
    → IsReady (add_keys m ks) (n + length ks)
add_keys-IsReady m [] n h new room = rw add-zero h
add_keys-IsReady m (k ∷ ks) n h new room =
    let e : n + suc (length ks) ≡ n + 1 + length ks = omega arith in
    rw e (
      add_keys-IsReady (add_key m k) ks (n + 1) (add_key-IsReady m k n h new.0 (omega arith)) new.1
        (omega arith))

abbrev seven_keys : List ℕ
seven_keys = 1 ∷ 2 ∷ 3 ∷ 4 ∷ 5 ∷ 6 ∷ 7 ∷ []

full-IsReady : IsReady (add_keys fresh_map seven_keys) 7
full-IsReady =
    add_keys-IsReady fresh_map seven_keys 0 ready
      (unfold create insert find_ptr hash64 in
        (refl, (refl, (refl, (refl, (refl, (refl, (refl, tt))))))))
      (omega arith)
  where
    ready : IsReady fresh_map 0
    ready = (
      fresh-IsValid,
      unfold create next_pow2 in refl,
      unfold create next_pow2 in refl,
      unfold create next_pow2 in refl,
    )

insert-abort_example : insert (add_keys fresh_map seven_keys) 3 30 ≡ abort
insert-abort_example =
    insert-abort 3 30 full-IsReady.0 full-IsReady.1
      (λ h. omega (arith, full-IsReady.2, full-IsReady.3))
