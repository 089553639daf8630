-- ===== src/Script/StatsTable.antt =====
-- The table of methods that src/script.c gives to a `stats` in Lua: reading a sample by its index,
-- the extremes and the length. The `stats` behind the user value is an argument; its check is left
-- out. `d` is `double`, the numbers of Lua, and `f` is `long double`.
use wrk_quic.Prelude.{
  ℕ, Option, none, some, List, if◌then◌else◌, ℤ, pos, negsuc, to_int64, get_elem?, zero, suc,
}
use wrk_quic.Platform.{Floating, Histogram}
use wrk_quic.Stats.{Stats, mean, stdev, percentile}
use wrk_quic.Lua.{Lua, bytes, same, CFunction}

-- `data[index - 1]`, if it is in the array.
unfoldable pub element : List ℕ → ℤ → Option ℕ
element values (pos zero) = none
element values (pos (suc i)) = get_elem? values i
element values (negsuc i) = none

module _ {L N V Hist : Type 0} (lua : Lua L N) (d : Floating N) (f : Floating V)
    (h : Histogram V Hist) (narrow : V → N) (widen : N → V) where
  -- `script_stats_percentile`; `none` is a read out of the array.
  percentile_method : Stats Hist → L → Option L
  percentile_method s l = elim (percentile f h s (widen (lua.check_number l (pos 2)))) [
    | none ↦ none
    | some x ↦ some (lua.push_number l (d.of_u64 x))
  ]

  -- The methods by name in `script_stats_get`. Nothing is pushed for another name.
  push_method : Stats Hist → List ℕ → L → L
  push_method s name l =
      let l = if same (bytes "min") name then lua.push_number l (d.of_u64 s.min) else l in
      let l = if same (bytes "max") name then lua.push_number l (d.of_u64 s.max) else l in
      let l = if same (bytes "mean") name then lua.push_number l (narrow (mean f h s)) else l in
      let l =
        if same (bytes "stdev") name
        then lua.push_number l (narrow (stdev f h s (mean f h s)))
        else l in
      if same (bytes "percentile") name
      then lua.push_function l CFunction.script_stats_percentile
      else l

  -- `script_stats_get`; `none` is a read out of the array.
  pub script_stats_get : Stats Hist → L → Option L
  unfolding element push_method
  script_stats_get s l =
      let index = lua.check_int l (pos 2) in
      let in_ring : Option L = elim (element s.values index) [
        | none ↦ none
        | some x ↦ some (lua.push_number l (d.of_u64 x))
      ] in
      let sample : Option L = elim s.histogram [
        | none ↦ in_ring
        | some hist ↦
            let rank =
              d.div (d.mul (d.literal 100 1) (d.of_int64 index)) (d.of_u64 (h.total_count hist)) in
            some (lua.push_number l (d.of_int64 (h.value_at_percentile hist (widen rank))))
      ] in
      let method = lua.to_string l (pos 2) in
      if lua.is_number l (pos 2)
      then sample
      else if lua.is_string l (pos 2)
      then some (push_method s method l)
      else some l

  pub script_stats_len : Stats Hist → L → L
  script_stats_len s l = elim s.histogram [
    | some hist ↦ lua.push_integer l (to_int64 (h.total_count hist))
    | none ↦ lua.push_integer l (to_int64 s.limit)
  ]
