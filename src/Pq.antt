-- ===== src/Pq.antt =====
-- internal/pq/pq.go: the indexed binary heap over dense handles. `less` reads its caller's arrays
-- as they are at the call, so every operation takes it as an argument. Handles are natural numbers
-- below 2^31; the loops take fuel, which the operations give in full.
pub mod Tests
use dagworker.Base.{
  ℕ, zero, suc, ◌+◌, ◌-◌, ◌*◌, ◌/◌, max, Bool, true, false, not, ◌&&◌, Option, none, some, List, [],
  ◌∷◌, ◌++◌, ltb, ◌==◌, if◌then◌else◌, length, get_or, set, take, replicate, is_empty,
}

abbrev pub Less : Type 0
Less = ℕ → ℕ → Bool

-- `pos` maps a handle to its index in `items`, plus one; 0 stands for "not present".
pub record Heap : Type 0 where
  pub items : List ℕ
  pub pos : List ℕ

pub new : ℕ → Heap
new capacity = record { items = []; pos = replicate capacity 0 }

unfoldable pub len : Heap → ℕ
len h = length h.items

unfoldable pub contains : Heap → ℕ → Bool
contains h handle = ltb handle (length h.pos) && not (get_or h.pos handle 0 == 0)

ensure : ℕ → Heap → Heap
ensure handle h =
    let size = max (handle + 1) (2 * length h.pos + 1) in
    if ltb handle (length h.pos)
    then h
    else record h { pos = h.pos ++ replicate (size - length h.pos) 0 }

abbrev item : Heap → ℕ → ℕ
item h i = get_or h.items i 0

swap : ℕ → ℕ → Heap → Heap
swap i j h =
    let items' = set (set h.items i (item h j)) j (item h i) in
    let pos' = set h.pos (get_or items' i 0) (i + 1) in
    record { items = items'; pos = set pos' (get_or items' j 0) (j + 1) }

abbrev parent : ℕ → ℕ
parent j = (j - 1) / 2

up_loop : ℕ → Less → ℕ → Heap → Heap
up_loop zero less j h = h
up_loop (suc fuel) less j h =
    let rest = up_loop fuel less (parent j) (swap (parent j) j h) in
    if j == 0 then h else if not (less (item h j) (item h (parent j))) then h else rest

up : Less → ℕ → Heap → Heap
unfolding up_loop
up less j h = up_loop j less j h

smallest_child : Less → ℕ → Heap → ℕ
smallest_child less i h =
    let left = 2 * i + 1 in
    let right = left + 1 in
    if ltb right (len h) && less (item h right) (item h left) then right else left

-- The heap and the index where the element ends.
down_loop : ℕ → Less → ℕ → Heap → Heap × ℕ
down_loop zero less i h = (h, i)
down_loop (suc fuel) less i h =
    let smallest = smallest_child less i h in
    let rest = down_loop fuel less smallest (swap i smallest h) in
    if not (ltb (2 * i + 1) (len h))
    then (h, i)
    else if not (less (item h smallest) (item h i))
    then (h, i)
    else rest

down : Less → ℕ → Heap → Heap × Bool
unfolding down_loop smallest_child swap len
down less i0 h = let (h', i) = down_loop (len h) less i0 h in (h', ltb i0 i)

-- if !h.down(i) { h.up(i) }
sift : Less → ℕ → Heap → Heap
unfolding down up
sift less i h = let (h', moved) = down less i h in if moved then h' else up less i h'

unfoldable pub fix : Less → ℕ → Heap → Heap × Bool
unfolding contains sift
fix less handle h =
    if not (contains h handle) then (h, false) else (sift less (get_or h.pos handle 0 - 1) h, true)

unfoldable pub push : Less → ℕ → Heap → Heap
unfolding ensure fix up
push less handle h =
    let h' = ensure handle h in
    let size = length h'.items in
    if not (get_or h'.pos handle 0 == 0)
    then (fix less handle h').0
    else up less size
        (record { items = h'.items ++ handle ∷ []; pos = set h'.pos handle (size + 1) })

unfoldable pub peek : Heap → Option ℕ
peek h = elim h.items [ [] ↦ none | x ∷ xs ↦ some x ]

-- The last item dropped and the position of the handle cleared.
cut : ℕ → Heap → Heap
cut handle h = record { items = take (length h.items - 1) h.items; pos = set h.pos handle 0 }

unfoldable pub pop : Less → Heap → Option (ℕ × Heap)
unfolding cut down swap
pop less h =
    let top = item h 0 in
    let h' = cut top (swap 0 (length h.items - 1) h) in
    if is_empty h.items
    then none
    else some (top, if is_empty h'.items then h' else (down less 0 h').0)

unfoldable pub remove : Less → ℕ → Heap → Heap × Bool
unfolding contains cut sift swap
remove less handle h =
    let i = get_or h.pos handle 0 - 1 in
    let last = length h.items - 1 in
    let h' = cut handle (swap i last h) in
    if not (contains h handle)
    then (h, false)
    else (if ltb i last then sift less i h' else h', true)
