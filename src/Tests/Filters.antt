-- ===== src/Tests/Filters.antt =====
-- The theorems on filters at concrete inputs.
use mcan.Base.{
  ℕ, ◌-◌, ◌≡◌, ◌&&◌, arith, List, [], ◌∷◌, length, get_elem?, map, leb, ltb, if◌then◌else◌,
}
use mcan.Filter.{store_fifo1, debug_b, Filter, ExtFilter, filter_standard_id, filter_extended_id}
use mcan.Filter.Standard.{element, interpret, taken, interpret-filter_standard_id}
use mcan.Filter.Extended.{ext_element, ext_interpret, ext_taken, ext_interpret-filter_extended_id}
use mcan.Filter.Memory.{new, push_all, push_all_lem}
use mcan.Tests.Fixtures.{ids, clamp}

abbrev buffer_filter : Filter ids
buffer_filter = Filter.store_buffer (clamp 0x7ff 0x123) debug_b 200

interpret-filter_standard_id_example :
    interpret ids (element (filter_standard_id buffer_filter)) ≡ taken ids buffer_filter
interpret-filter_standard_id_example = interpret-filter_standard_id ids buffer_filter (omega arith)

abbrev range_filter : ExtFilter ids
range_filter = ExtFilter.range store_fifo1 (clamp 0x1fff_ffff 5) (clamp 0x1fff_ffff 0x1234567)

ext_interpret-filter_extended_id_example :
    ext_interpret ids (ext_element (filter_extended_id range_filter)) ≡ ext_taken ids range_filter
ext_interpret-filter_extended_id_example = ext_interpret-filter_extended_id ids range_filter tt

abbrev filters : List (Filter ids)
filters = buffer_filter ∷ Filter.disabled ∷ []

abbrev memory : List ℕ
memory = 0 ∷ 0 ∷ 0 ∷ []

push_all_lem_example :
    ((push_all filter_standard_id (new memory) filters).len ≡ 2)
    × (length (push_all filter_standard_id (new memory) filters).memory ≡ 3)
    × (get_elem? (push_all filter_standard_id (new memory) filters).memory 1 ≡ (
        if leb 0 1 && ltb 1 2
        then get_elem? (map filter_standard_id filters) (1 - 0)
        else get_elem? memory 1))
unfolding new
push_all_lem_example = push_all_lem filter_standard_id (new memory) filters 1 (omega arith)
