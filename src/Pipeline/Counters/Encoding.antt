-- ===== src/Pipeline/Counters/Encoding.antt =====
-- broker/internal/pipeline/metrics.go: the JSON text that `MetricsHandler` writes. Its keys need
-- no escapes.
use agentic_ebpf_patrol.Prelude.{
  ℕ, Bool, true, false, ◌&&◌, ◌||◌, List, [], ◌∷◌, ◌++◌, map, Bytes, ltb, ◌==◌, if◌then◌else◌,
}
use agentic_ebpf_patrol.Text.{join}
use agentic_ebpf_patrol.Text.Decimal.{format_uint}

abbrev pub quote : ℕ
quote = b'"'

abbrev pub comma : ℕ
comma = b','

abbrev pub closing : ℕ
closing = b'}'

-- `encoding/json` orders the keys of a map by their bytes.
unfoldable pub comes_first : Bytes → Bytes → Bool
comes_first [] t = true
comes_first (c ∷ s) [] = false
comes_first (c ∷ s) (d ∷ t) = ltb c d || ((c == d) && comes_first s t)

unfoldable pub insert_key : Bytes × ℕ → List (Bytes × ℕ) → List (Bytes × ℕ)
unfolding comes_first
insert_key entry [] = entry ∷ []
insert_key entry (other ∷ entries) =
    let rest = insert_key entry entries in
    if comes_first entry.0 other.0 then entry ∷ other ∷ entries else other ∷ rest

unfoldable pub sort_keys : List (Bytes × ℕ) → List (Bytes × ℕ)
unfolding insert_key
sort_keys [] = []
sort_keys (entry ∷ entries) = insert_key entry (sort_keys entries)

abbrev pub encode_entry : Bytes × ℕ → Bytes
encode_entry (key, n) = quote ∷ (key ++ quote ∷ b':' ∷ format_uint n)

-- `json.NewEncoder(w).Encode`
unfoldable pub encode : List (Bytes × ℕ) → Bytes
unfolding sort_keys format_uint join
encode report =
    b'{' ∷ (join (map encode_entry (sort_keys report)) (comma ∷ []) ++ closing ∷ 10 ∷ [])
