-- ===== src/Server/VariableService/Map.antt =====
-- `std::map<std::string, int64_t>` as async_grpc/server/variable_service_impl.cpp uses it. The
-- program never iterates over the map, so the order of its entries is not modelled.
use Prim.Native.String.{String}
use text.Mathlib.Text.{◌==◌ as str_eq}
use text.Mathlib.TextEquality.{eq_iff}
use async_sandbox.Prelude.{
  ℤ, ◌≡◌, refl, Bool, true, false, Option, none, some, List, [], ◌∷◌, arith, if◌then◌else◌,
}

abbrev pub Storage : Type 0
Storage = List (String × ℤ)

unfoldable pub find : Storage → String → Option ℤ
find [] k = none
find ((j, v) ∷ s) k = if str_eq j k then some v else find s k

-- `insert_or_assign(k, v)`: the map, and whether the key is new
unfoldable pub insert_or_assign : Storage → String → ℤ → Storage × Bool
insert_or_assign [] k v = ((k, v) ∷ [], true)
insert_or_assign ((j, u) ∷ s) k v =
    let (s', inserted) = insert_or_assign s k v in
    if str_eq j k then ((j, v) ∷ s, false) else ((j, u) ∷ s', inserted)

-- `erase(k)`: the map, and whether an entry was there
unfoldable pub erase : Storage → String → Storage × Bool
erase [] k = ([], false)
erase ((j, u) ∷ s) k =
    let (s', erased) = erase s k in if str_eq j k then (s, true) else ((j, u) ∷ s', erased)

-- No key twice.
abbrev pub Absent : String → Storage → Type 0
Absent k [] = Unit {0}
Absent k ((j, v) ∷ s) = (str_eq j k ≡ false) × Absent k s

abbrev pub IsMap : Storage → Type 0
IsMap [] = Unit {0}
IsMap ((j, v) ∷ s) = Absent j s × IsMap s

abbrev pub is_some : Option ℤ → Bool
is_some none = false
is_some (some v) = true

pub find-insert :
    (s : Storage) (k j : String) (v : ℤ)
    → find (insert_or_assign s k v).0 j ≡ (if str_eq k j then some v else find s j)
unfolding find insert_or_assign
find-insert [] k j v = refl
find-insert ((i, u) ∷ s) k j v =
    ground (arith, find-insert s k j v, eq_iff i k, eq_iff i j, eq_iff k j)

pub inserted-find :
    (s : Storage) (k : String) (v : ℤ)
    → ((insert_or_assign s k v).1 ≡ true → find s k ≡ none)
      × (find s k ≡ none → (insert_or_assign s k v).1 ≡ true)
unfolding find insert_or_assign
inserted-find [] k v = ground arith
inserted-find ((i, u) ∷ s) k v = ground (arith, inserted-find s k v)

find-Absent : (k : String) (s : Storage) → Absent k s → find s k ≡ none
unfolding find
find-Absent k [] h = refl
find-Absent k ((j, v) ∷ s) h = ground (arith, find-Absent k s h.1)

pub find-erase :
    (s : Storage) (k j : String)
    → IsMap s
    → find (erase s k).0 j ≡ (if str_eq k j then none else find s j)
unfolding find erase
find-erase [] k j h = ground arith
find-erase ((i, u) ∷ s) k j h =
    ground (arith, find-erase s k j h.1, find-Absent i s h.0, eq_iff i k, eq_iff i j, eq_iff k j)

pub erased-find : (s : Storage) (k : String) → (erase s k).1 ≡ is_some (find s k)
unfolding find erase
erased-find [] k = refl
erased-find ((i, u) ∷ s) k = ground (arith, erased-find s k)

insert-Absent :
    (s : Storage) (k j : String) (v : ℤ)
    → str_eq k j ≡ false
    → Absent j s
    → Absent j (insert_or_assign s k v).0
unfolding insert_or_assign
insert-Absent [] k j v e h = (e, tt)
insert-Absent ((i, u) ∷ s) k j v e h = ground (arith, insert-Absent s k j v e h.1)

pub insert-IsMap : (s : Storage) (k : String) (v : ℤ) → IsMap s → IsMap (insert_or_assign s k v).0
unfolding insert_or_assign
insert-IsMap [] k v h = (tt, tt)
insert-IsMap ((i, u) ∷ s) k v h =
    ground (arith, insert-IsMap s k v h.1, insert-Absent s k i v, eq_iff i k, eq_iff k i)

erase-Absent : (s : Storage) (k j : String) → Absent j s → Absent j (erase s k).0
unfolding erase
erase-Absent [] k j h = tt
erase-Absent ((i, u) ∷ s) k j h = ground (arith, erase-Absent s k j h.1)

pub erase-IsMap : (s : Storage) (k : String) → IsMap s → IsMap (erase s k).0
unfolding erase
erase-IsMap [] k h = tt
erase-IsMap ((i, u) ∷ s) k h = ground (arith, erase-IsMap s k h.1, erase-Absent s k i h.0)
