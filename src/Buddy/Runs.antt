-- ===== src/Buddy/Runs.antt =====
-- Runs of Kernel/mm/buddy_system.c: a region of three free blocks of two pages, the largest ones.
use tp2_kernel.Base.{◌≡◌, refl, true, false, none, some, arith, ◌==◌, if◌then◌else◌}
use tp2_kernel.Buddy.{
  Buddy, buddy_index, size_to_order, buddy_alloc, buddy_free, buddy_check_integrity, count_free,
  count_list, buddy_get_info, order_from, take_block, grant_block, divide, add_to_free_list,
  join_from,
}
use tp2_kernel.Buddy.Oversize.{buddy_alloc_oversize}

-- The block 0, then 2, then 4 on the list of two pages each.
abbrev region : Buddy
region = record {
  free_lists = λ o. if o == 13 then some 0 else none;
  next = λ i. if i == 0 then some 2 else if i == 2 then some 4 else none;
  order_map = λ i. 13;
  used_map = λ i. false;
  region_base = 8192;
  region_end = 32768;
  max_order = 13;
  initialized = true;
  stat_total = 24576;
  stat_used = 0;
  stat_alloc_blocks = 0;
  stat_free_blocks = 3;
}

region_checked : buddy_check_integrity 3 region ≡ some true
unfolding buddy_check_integrity count_free count_list
region_checked = refl

-- One page is granted at the page 0, and the page 2, which is on the other list as well, is put on a list:
-- the page 4 is on no list any more, and the integrity check fails.
one_page :
    ((buddy_alloc 100 region).0 ≡ some 0)
    × ((buddy_alloc 100 region).1.free_lists 12 ≡ some 2)
    × ((buddy_alloc 100 region).1.free_lists 13 ≡ some 2)
    × ((buddy_alloc 100 region).1.next 2 ≡ none)
    × (buddy_check_integrity 4 (buddy_alloc 100 region).1 ≡ some false)
unfolding buddy_alloc size_to_order order_from take_block grant_block divide add_to_free_list
    buddy_index buddy_check_integrity count_free count_list
one_page = (refl, refl, refl, refl, refl)

-- A block of two pages that is granted and freed is on its list again.
two_pages :
    (b : Buddy) × (buddy_free 3 8192 (buddy_alloc 8000 region).1 ≡ some b)
    × (b.free_lists 13 ≡ some 0)
unfolding buddy_alloc buddy_free join_from size_to_order order_from take_block grant_block divide
    add_to_free_list
two_pages = (_, refl, refl)

no_info : buddy_get_info (record region { initialized = false }) ≡ none
unfolding buddy_get_info
no_info = refl

buddy_alloc_oversize_example :
    let (block, b') = buddy_alloc 9000 region in
    (block ≡ some 0) × (b'.order_map 0 ≡ 13) × (b'.used_map 0 ≡ true)
buddy_alloc_oversize_example =
    buddy_alloc_oversize 9000 0 region refl (omega arith) (omega arith) refl
