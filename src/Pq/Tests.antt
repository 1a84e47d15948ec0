-- ===== src/Pq/Tests.antt =====
-- Tests of pq.go.
use dagworker.Base.{◌≡◌, refl, ltb, [], ◌∷◌}
use dagworker.Pq.{Heap, new, push, len}

heap : Heap
unfolding push new len
heap = push ltb 2 (push ltb 7 (push ltb 4 (push ltb 9 (new 0))))

heap-items : heap.items ≡ 2 ∷ 4 ∷ 7 ∷ 9 ∷ []
unfolding heap
heap-items = refl
