-- ===== src/Services/Collect/Totals.antt =====
-- The number of connections of the whole server.
use crunchy_containers.Prelude.{
  ℕ, ◌+◌, ◌^◌, ◌<◌, true, ◌≡◌, ap, ◌∙◌, arith, List, [], ◌∷◌, ◌++◌, map,
}
use crunchy_containers.Prelude.Text.{Text, text}
use crunchy_containers.Prelude.Int.{ℤ, pos, ◌+ℤ◌}
use crunchy_containers.Services.Parse.{wrap64, wrap64_pos}
use crunchy_containers.Services.Collect.{
  metric, rows, add64, connection_metric, total, get_connection_metrics,
}

abbrev pub sum : List (ℕ × Text) → ℕ
sum [] = 0
sum ((n, _) ∷ rs) = n + sum rs

-- The row that the query gives for a count.
abbrev pub row : ℕ × Text → ℤ × Text
row (n, database) = (pos n, database)

pos_add : (a b : ℕ) → (pos a +ℤ pos b) ≡ pos (a + b)
unfolding ◌+ℤ◌
pos_add a b = ground arith

add64_pos : (a b : ℕ) → a + b < 2 ^ 63 → add64 (pos a) (pos b) ≡ pos (a + b)
unfolding add64
add64_pos a b h = ap wrap64 (pos_add a b) ∙ wrap64_pos (a + b) h

total-sum :
    (acc : ℕ) (rs : List (ℕ × Text))
    → acc + sum rs < 2 ^ 63
    → total (pos acc) (map row rs) ≡ pos (acc + sum rs)
unfolding total
total-sum acc [] h = ap pos (omega arith)
total-sum acc ((n, d) ∷ rs) h =
    ap (λ t. total t (map row rs)) (add64_pos acc n (omega arith))
    ∙ total-sum (acc + n) rs (omega arith)
    ∙ ap pos (omega arith)

-- Where the query is read to its end, and the connections of all databases together are a number of
-- int64, the metrics are those of the databases, in order, and one of the cluster with their sum.
pub get_connection_metrics-sum :
    (host : Text) (rs : List (ℕ × Text))
    → sum rs < 2 ^ 63
    → get_connection_metrics host (rows (map row rs) true)
      ≡ map (connection_metric host) (map row rs)
        ++ metric host (text "connections") (text "count") (pos (sum rs)) (text "cluster") ∷ []
unfolding get_connection_metrics
get_connection_metrics-sum host rs h =
    ap
      (λ t.
        map (connection_metric host) (map row rs)
        ++ connection_metric host (t, text "cluster") ∷ [])
      (total-sum 0 rs (omega arith) ∙ ap pos (omega arith))
