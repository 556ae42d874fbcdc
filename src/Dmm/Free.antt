-- ===== src/Dmm/Free.antt =====
-- dmm.c: `dfree`, with one function for each way to merge the freed block with its neighbours.
use duke_operatingsystems.Common.{false, not, ◌&&◌, ◌==◌, if◌then◌else◌, add64, sub64, ◌*◌}
use duke_operatingsystems.Dmm.Defs.{
  Ptr, null, Memory, Heap, metadata_t_aligned, set_size, set_next, set_prev, set_fille,
}

-- The block before is free, the block behind is allocated.
unfoldable pub merge_prev : Ptr → Memory → Memory
merge_prev p m =
    let prev_head = (m p).prev in
    let m1 = set_next m prev_head (m p).next in
    let m2 = set_prev m1 (m1 p).next prev_head in
    let m3 = set_fille m2 prev_head false in
    set_size m3 prev_head (add64 (add64 (m3 prev_head).size (m3 p).size) metadata_t_aligned)

-- Case 3, and the same lines for the first block of the list: the block behind is free.
unfoldable pub merge_next : Ptr → Memory → Memory
merge_next p m =
    let next_head = (m p).next in
    let m1 : Memory =
      if (m next_head).next == null
      then set_next m p null
      else (let m' = set_next m p (m next_head).next in set_prev m' (m' next_head).next p) in
    let m2 = set_fille m1 p false in
    set_size m2 p (add64 (add64 (m2 p).size (m2 next_head).size) metadata_t_aligned)

-- Case 4: both neighbours are free.
unfoldable pub merge_both : Ptr → Memory → Memory
merge_both p m =
    let prev_head = (m p).prev in
    let next_head = (m p).next in
    let m1 : Memory =
      if (m next_head).next == null
      then set_next m prev_head null
      else (let m' = set_next m prev_head (m next_head).next in
          set_prev m' (m' next_head).next prev_head) in
    let m2 = set_fille m1 prev_head false in
    set_size m2 prev_head (
      add64 (add64 (add64 (m2 prev_head).size (m2 p).size) (m2 next_head).size)
        (2 * metadata_t_aligned))

-- The last block of the list, behind a free block.
unfoldable pub merge_last : Ptr → Memory → Memory
merge_last p m =
    let prev_head = (m p).prev in
    let m1 = set_next m prev_head null in
    let m2 = set_fille m1 prev_head false in
    set_size m2 prev_head (add64 (add64 (m2 p).size (m2 prev_head).size) metadata_t_aligned)

-- The `if` ladder of `dfree`, behind the write of `actualHead->fille`.
unfoldable pub coalesce : Ptr → Memory → Memory
coalesce p m =
    let prev = (m p).prev in
    let next = (m p).next in
    if not (prev == null) && not (next == null)
    then (if not (m prev).fille && (m next).fille
        then merge_prev p m
        else if (m prev).fille && not (m next).fille
        then merge_next p m
        else if not (m prev).fille && not (m next).fille
        then merge_both p m
        else m)
    else if (prev == null) && not (next == null)
    then (if not (m next).fille then merge_next p m else m)
    else if not (prev == null) && (next == null)
    then (if not (m prev).fille then merge_last p m else m)
    else m

unfoldable pub dfree : Ptr → Heap → Heap
dfree ptr h =
    let p = sub64 ptr metadata_t_aligned in record h { mem = coalesce p (set_fille h.mem p false) }
