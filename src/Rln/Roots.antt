-- ===== src/Rln/Roots.antt =====
-- waku/waku_rln_relay/group_manager/group_manager_base.nim: `slideRootQueue`, the window of the
-- Merkle roots that proofs may refer to. A deque is a list, its oldest root first.
use nwaku.Base.{
  ℕ, zero, suc, ◌+◌, ◌-◌, ◌≤◌, ◌≡◌, refl, arith, List, [], ◌∷◌, ◌++◌, length, take, drop,
  length-drop, length-append, sym, ◌∙◌,
}
use mathlib.Core.List.{append_assoc, append-nil}
use nwaku.Rln.Log.{MerkleNode}

abbrev pub acceptable_root_window_size : ℕ
acceptable_root_window_size = 5

-- The roots that are popped, and the queue. The count that the code has may be negative.
unfoldable pub slide_root_queue : List MerkleNode → MerkleNode → List MerkleNode × List MerkleNode
slide_root_queue queue root =
    let overflow_count = length queue + 1 - acceptable_root_window_size in
    (take overflow_count queue, drop overflow_count queue ++ root ∷ [])

-- One root after another.
unfoldable pub slide_roots : List MerkleNode → List MerkleNode → List MerkleNode
slide_roots queue [] = queue
slide_roots queue (root ∷ roots) = slide_roots (slide_root_queue queue root).1 roots

drop-drop : (m n : ℕ) (xs : List ℕ) → drop m (drop n xs) ≡ drop (n + m) xs
drop-drop m zero xs = let same : 0 + m ≡ m = omega arith in rw same
drop-drop zero (suc n) [] = let same : suc n + 0 ≡ suc n = omega arith in rw same
drop-drop (suc m) (suc n) [] = let same : suc n + suc m ≡ suc (n + suc m) = omega arith in rw same
drop-drop m (suc n) (x ∷ xs) =
    let same : suc n + m ≡ suc (n + m) = omega arith in rw same (drop-drop m n xs)

drop-append : (n : ℕ) (xs ys : List ℕ) → n ≤ length xs → drop n (xs ++ ys) ≡ drop n xs ++ ys
drop-append zero xs ys h = refl
drop-append (suc n) [] ys h = absurd (omega (arith, h))
drop-append (suc n) (x ∷ xs) ys h = drop-append n xs ys (omega (arith, h))

slide_roots-drop :
    (queue roots : List MerkleNode)
    → length queue ≤ 5
    → slide_roots queue roots ≡ drop (length queue + length roots - 5) (queue ++ roots)
unfolding slide_roots slide_root_queue
slide_roots-drop queue [] h =
    let none_popped : length queue + 0 - 5 ≡ 0 = omega (arith, h) in rw (none_popped, append-nil)
slide_roots-drop queue (root ∷ roots) h =
    let k = length queue + 1 - 5 in
    let kept = drop k queue in
    let size : length (kept ++ root ∷ []) ≡ length queue - k + 1 =
      omega (arith, length-append kept (root ∷ []), length-drop k queue) in
    let rest = slide_roots-drop (kept ++ root ∷ []) roots (omega (arith, size, h)) in
    let together : (kept ++ root ∷ []) ++ roots ≡ drop k (queue ++ root ∷ roots) =
      append_assoc kept (root ∷ []) roots
      ∙ sym (drop-append k queue (root ∷ roots) (omega (arith, h))) in
    let count : k + (length queue - k + 1 + length roots - 5)
        ≡ length queue + suc (length roots) - 5 =
      omega (arith, h) in
    rest ∙ rw (together, size, drop-drop, count)

-- After any roots the queue has the last five of them, or all if there are no more than five, and
-- has them in their order.
pub slide_roots-last :
    (roots : List MerkleNode) → slide_roots [] roots ≡ drop (length roots - 5) roots
slide_roots-last roots =
    let count : 0 + length roots - 5 ≡ length roots - 5 = omega arith in
    rw count at (slide_roots-drop [] roots (omega arith))
