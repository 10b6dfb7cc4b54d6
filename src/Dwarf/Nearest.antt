-- ===== src/Dwarf/Nearest.antt =====
-- The row of an address: `addr_dist`, `get_nearest_state` and `get_line_address_internal` of
-- src/infos/my_dwarf.c. `base_addr` is what `calc_base_address` returns.
use my_dbg.Base.{
  ℕ, ◌+◌, ◌-◌, ◌%◌, ◌^◌, ◌||◌, List, [], ◌∷◌, ◌==◌, leb, if◌then◌else◌, Option, none, some,
}
use my_dbg.Dwarf.Result.{Dw, ok, invalid}
use my_dbg.Dwarf.Machine.{Sm}

abbrev pub long_max : ℕ
long_max = 2 ^ 63 - 1

-- The difference of two pointers is a `long`, here its bit pattern. The caller sees `LONG_MAX`
-- where `addr1` is above `addr2`.
unfoldable pub addr_dist : (addr1 addr2 : ℕ) → ℕ
addr_dist addr1 addr2 =
    let diff = (addr1 + 2 ^ 64 - addr2) % 2 ^ 64 in
    if leb diff 0 || leb (2 ^ 63) diff then (2 ^ 64 - diff) % 2 ^ 64 else long_max

unfoldable pub state_addr : (base_addr : ℕ) → Sm → ℕ
state_addr base_addr sm = (base_addr + sm.address) % 2 ^ 64

-- The loop with `dist` and `my_sm`
unfoldable pub nearest_loop :
    (base_addr addr : ℕ) (dist : ℕ) (my_sm : Option Sm) → List Sm → Option Sm
unfolding addr_dist state_addr
nearest_loop base_addr addr dist my_sm [] = my_sm
nearest_loop base_addr addr dist my_sm (sm ∷ states) =
    let d = addr_dist (state_addr base_addr sm) addr in
    let skipped = nearest_loop base_addr addr dist my_sm states in
    let taken = nearest_loop base_addr addr d (some sm) states in
    if d == long_max then skipped else if leb d dist then taken else skipped

unfoldable pub get_nearest_state : List Sm → (addr base_addr : ℕ) → Option Sm
unfolding nearest_loop
get_nearest_state states addr base_addr = nearest_loop base_addr addr long_max none states

-- `get_line_address_internal` on the rows of the section: the argument `file` is not used.
unfoldable pub get_line_address_internal : (base_addr : ℕ) → List Sm → (line : ℕ) → Dw ℕ
unfolding state_addr
get_line_address_internal base_addr [] line = invalid
get_line_address_internal base_addr (sm ∷ states) line =
    let rest = get_line_address_internal base_addr states line in
    if sm.line == line then ok (state_addr base_addr sm) else rest
