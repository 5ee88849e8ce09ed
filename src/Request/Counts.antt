-- ===== src/Request/Counts.antt =====
-- The three counts of `RequestRegistry` in garwarp/src/request.rs that a status reply shows.
use garwarp.Base.{◌+◌, [], ◌∷◌, ◌≡◌, arith}
use garwarp.Base.{length}
use garwarp.Base.Map.{Map, values}
use garwarp.Request.Types.{RequestEntry, is_terminal}
use garwarp.Request.{
  RequestRegistry, count_where, is_in_flight, in_flight_count, total_count, terminal_count,
}

count_split :
    (m : Map RequestEntry)
    → count_where (λ entry. is_in_flight entry.state) (values m)
        + count_where (λ entry. is_terminal entry.state) (values m)
      ≡ length m
unfolding count_where values is_terminal
count_split [] = omega arith
count_split ((id, entry) ∷ m) = ground (arith, count_split m)

-- Every request is in flight or terminal, and none is both: the counts add up.
pub counts_add_up : (r : RequestRegistry) → in_flight_count r + terminal_count r ≡ total_count r
unfolding in_flight_count terminal_count total_count
counts_add_up r = count_split r.entries
