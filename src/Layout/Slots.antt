-- ===== src/Layout/Slots.antt =====
-- The slot arithmetic of include/ssd_index.h: locations and (sector, offset) pairs correspond, and
-- slots do not overlap.
use native.Mathlib.Nat.{
  div-add-mod', mod-lt, mul-add-div_right, mul-add-mod_self_right, mod-eq_of_lt, div-eq_of_lt,
  mul-le-mul_right, div-le_self, le-div_iff_mul-le,
}
use native.Mathlib.Decide.{dec_lt}
use ccann.Prelude.{ℕ, ◌+◌, ◌-◌, ◌*◌, ◌/◌, ◌%◌, ◌^◌, ◌≤◌, ◌<◌, ◌≡◌, ◌∙◌, arith}
use ccann.Layout.{
  Geometry, sector_len, u64, loc_sector_no, sector_to_loc, u_loc_offset, slot_offset,
}

-- Several whole nodes fit in a sector.
pub record IsPacked (g : Geometry) : Type 0 where
  pub some_nodes : 0 < g.nnodes_per_sector
  pub fits : g.nnodes_per_sector * g.max_node_len ≤ sector_len

module _ (g : Geometry) (packed : IsPacked g) where
  open g use {nnodes_per_sector as n, max_node_len as len}

  pub loc_sector_no_eq : (loc : ℕ) → loc < 2 ^ 63 → loc_sector_no g loc ≡ 1 + loc / n
  unfolding loc_sector_no
  loc_sector_no_eq loc h = ground (arith, packed.some_nodes, div-le_self loc n)

  slot_offset-le : (loc : ℕ) → (loc % n) * len + len ≤ sector_len
  slot_offset-le loc =
      let below : loc % n + 1 ≤ n = omega (arith, mod-lt loc packed.some_nodes) in
      omega (arith, mul-le-mul_right len below, packed.fits)

  slot_offset_eq : (loc : ℕ) → slot_offset g loc ≡ loc % n * len
  slot_offset_eq loc = ground (arith, packed.some_nodes, slot_offset-le loc)

  pub u_loc_offset_eq :
      (loc : ℕ) → loc < 2 ^ 50 → u_loc_offset g loc ≡ (1 + loc / n) * sector_len + loc % n * len
  unfolding u_loc_offset
  u_loc_offset_eq loc h = omega (
    arith,
    loc_sector_no_eq loc (omega arith),
    slot_offset_eq loc,
    slot_offset-le loc,
    div-le_self loc n,
  )

  -- Where the slots of a sector fit into it, `sector_to_loc` takes the sector and the index of a
  -- location below 2^63 back to the location.
  pub sector_to_loc-loc_sector_no :
      (loc : ℕ) → loc < 2 ^ 63 → sector_to_loc g (loc_sector_no g loc) (loc % n) ≡ loc
  unfolding sector_to_loc
  sector_to_loc-loc_sector_no loc h =
      let small : u64 (loc_sector_no g loc + 2 ^ 64 - 1) ≡ loc / n =
        omega (arith, loc_sector_no_eq loc h, div-le_self loc n) in
      rw (small, div-add-mod' loc n) (omega arith)

  pub sector_to_loc_eq :
      (sector off : ℕ)
      → 0 < sector
      → off < n
      → sector * n < 2 ^ 63
      → sector_to_loc g sector off ≡ (sector - 1) * n + off
  unfolding sector_to_loc
  sector_to_loc_eq sector off h k l =
      let room : sector ≤ sector * n = grind (arith, packed.some_nodes) in
      let small : u64 (sector + 2 ^ 64 - 1) ≡ sector - 1 = omega arith in
      let whole : (sector - 1) * n + off < sector * n = grind arith in rw small (omega arith)

  -- A slot of a sector lies in that sector, at that index.
  pub loc_sector_no-sector_to_loc :
      (sector off : ℕ)
      → 0 < sector
      → off < n
      → sector * n < 2 ^ 63
      → (loc_sector_no g (sector_to_loc g sector off) ≡ sector)
        × (sector_to_loc g sector off % n ≡ off)
  loc_sector_no-sector_to_loc sector off h k l =
      let e = sector_to_loc_eq sector off h k l in
      let whole : (sector - 1) * n + off < sector * n = grind arith in
      rw e (
        omega (
          arith,
          loc_sector_no_eq ((sector - 1) * n + off) (omega arith),
          mul-add-div_right packed.some_nodes (sector - 1) off,
          div-eq_of_lt k,
        ),
        mul-add-mod_self_right (sector - 1) n off ∙ mod-eq_of_lt k,
      )

  -- A slot lies inside its sector.
  pub slot_in_sector :
      (loc : ℕ)
      → loc < 2 ^ 50
      → (loc_sector_no g loc * sector_len ≤ u_loc_offset g loc)
        × (u_loc_offset g loc + len ≤ (loc_sector_no g loc + 1) * sector_len)
  slot_in_sector loc h =
      omega (arith, u_loc_offset_eq loc h, loc_sector_no_eq loc (omega arith), slot_offset-le loc)

  -- Where the slots of a sector fit into it and locations are below 2^50, the bytes of two slots do
  -- not overlap: a later slot starts behind the end of an earlier one.
  pub slots_disjoint : (a b : ℕ) → a < b → b < 2 ^ 50 → u_loc_offset g a + len ≤ u_loc_offset g b
  slots_disjoint a b lt hb = elim (dec_lt (a / n) (b / n)) [
    | yes p ↦ omega (arith, u_loc_offset_eq a (omega arith), u_loc_offset_eq b hb, slot_offset-le a)
    | no p ↦
        let qa = div-add-mod' a n in
        let qb = div-add-mod' b n in
        let same_or_less : b / n ≤ a / n = omega arith in
        let rows : b / n * n ≤ a / n * n = mul-le-mul_right n same_or_less in
        let rising : a / n ≤ b / n = (le-div_iff_mul-le packed.some_nodes).1 (omega (arith, qa)) in
        let later : a % n + 1 ≤ b % n = omega arith in
        omega
          (arith, u_loc_offset_eq a (omega arith), u_loc_offset_eq b hb, mul-le-mul_right len later)
  ]
