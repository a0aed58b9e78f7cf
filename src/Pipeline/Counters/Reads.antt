-- ===== src/Pipeline/Counters/Reads.antt =====
-- How a client reads the JSON text of broker/internal/pipeline/metrics.go back.
use agentic_ebpf_patrol.Prelude.{
  ℕ, ◌<◌, ◌^◌, ◌≡◌, ◌≢◌, ◌∙◌, sym, ap, refl, Bool, true, ◌&&◌, ◌||◌, not, Bool-cases, All-append,
  ◌⊎◌, inl, inr, List, [], ◌∷◌, ◌++◌, map, Option, none, some, Bytes, All, ◌==◌, arith,
  if◌then◌else◌,
}
use agentic_ebpf_patrol.Text.{split, join}
use agentic_ebpf_patrol.Text.Search.{Lacks}
use agentic_ebpf_patrol.Text.Split.{split-join}
use agentic_ebpf_patrol.Text.Decimal.{
  format_uint, parse_uint, format_uint-IsDigit, parse_uint-format_uint,
}
use agentic_ebpf_patrol.Pipeline.Counters.Encoding.{
  quote, comma, closing, encode_entry, sort_keys, encode, insert_key, comes_first,
}

-- The value behind its colon.
read_value : Bytes → Option ℕ
unfolding parse_uint
read_value [] = none
read_value (c ∷ digits) = let n = parse_uint digits in if c == b':' then n else none

with_key : Bytes → Option ℕ → Option (Bytes × ℕ)
with_key key none = none
with_key key (some n) = some (key, n)

-- The parts between the quotes: nothing, the key, and the rest.
read_parts : List Bytes → Option (Bytes × ℕ)
unfolding read_value with_key
read_parts ([] ∷ key ∷ rest ∷ []) = with_key key (read_value rest)
read_parts _ = none

cons_entry : Option (Bytes × ℕ) → Option (List (Bytes × ℕ)) → Option (List (Bytes × ℕ))
cons_entry (some e) (some es) = some (e ∷ es)
cons_entry _ _ = none

read_entries : List Bytes → Option (List (Bytes × ℕ))
unfolding split read_parts cons_entry
read_entries [] = some []
read_entries (s ∷ ss) = cons_entry (read_parts (split s quote)) (read_entries ss)

read_body : List Bytes → Option (List (Bytes × ℕ))
unfolding split read_entries
read_body ((c ∷ inner) ∷ (d ∷ []) ∷ []) =
    let entries = read_entries (split inner comma) in
    if (c == b'{') && (d == 10) then entries else none
read_body _ = none

-- The entries of a flat object of numbers, with a newline behind it.
unfoldable pub read_object : Bytes → Option (List (Bytes × ℕ))
unfolding split read_body
read_object s = read_body (split s closing)

-- A key without quote, comma and brace, and a 64-bit number.
abbrev pub Readable : Bytes × ℕ → Type 0
Readable (key, n) = All (λ c. (c ≢ quote) × (c ≢ comma) × (c ≢ closing)) key × (n < 2 ^ 64)

abbrev is_plain : Bytes → Bool
is_plain [] = true
is_plain (c ∷ key) = not ((c == quote) || (c == comma) || (c == closing)) && is_plain key

plain-Readable : (key : Bytes) (n : ℕ) → is_plain key ≡ true → n < 2 ^ 64 → Readable (key, n)
plain-Readable [] n h w = (tt, w)
plain-Readable (c ∷ key) n h w =
    let (rest, same) = plain-Readable key n (ground arith) w in
    (((λ e. ground arith, λ e. ground arith, λ e. ground arith), rest), w)

All-map {ℓ κ μ} :
    {A : Type ℓ} {P : A → Type κ} {Q : A → Type μ}
    → ((a : A) → P a → Q a)
    → (xs : List A) → All P xs
    → All Q xs
All-map f [] h = tt
All-map f (x ∷ xs) (p, h) = (f x p, All-map f xs h)

digits-Lacks : (b n : ℕ) → (b < 48) ⊎ (57 < b) → Lacks b (format_uint n)
digits-Lacks b n h = All-map (λ c d e. omega arith) (format_uint n) (format_uint-IsDigit n)

encode_entry-Lacks :
    (b : ℕ) (key : Bytes) (n : ℕ)
    → Lacks b key
    → (b < 48) ⊎ (58 < b)
    → b ≢ quote
    → Lacks b (encode_entry (key, n))
encode_entry-Lacks b key n h out q = (
  λ e. q (sym e),
  All-append (λ c. c ≢ b) key _ h
      (λ e. q (sym e), (λ e. omega arith, digits-Lacks b n (omega arith))),
)

join_entry :
    (key : Bytes) (n : ℕ)
    → encode_entry (key, n) ≡ join ([] ∷ key ∷ (b':' ∷ format_uint n) ∷ []) (quote ∷ [])
unfolding join
join_entry key n = refl

split_entry :
    (key : Bytes) (n : ℕ)
    → Lacks quote key
    → split (encode_entry (key, n)) quote ≡ [] ∷ key ∷ (b':' ∷ format_uint n) ∷ []
split_entry key n h =
    ap (λ s. split s quote) (join_entry key n)
    ∙ split-join ([] ∷ key ∷ (b':' ∷ format_uint n) ∷ []) quote (λ e. cc)
        (tt, (h, ((λ e. omega arith, digits-Lacks quote n (omega arith)), tt)))

read_entry :
    (key : Bytes) (n : ℕ)
    → Readable (key, n)
    → read_parts (split (encode_entry (key, n)) quote) ≡ some (key, n)
unfolding read_parts read_value with_key
read_entry key n (h, w) =
    ap read_parts (split_entry key n (All-map (λ c x. x.0) key h))
    ∙ ap (with_key key) (parse_uint-format_uint n w)

read_all :
    (report : List (Bytes × ℕ))
    → All Readable report
    → read_entries (map encode_entry report) ≡ some report
unfolding read_entries cons_entry
read_all [] h = refl
read_all ((key, n) ∷ report) (r, h) = rw (read_entry key n r, read_all report h) refl

entries-Lacks :
    (report : List (Bytes × ℕ))
    → All Readable report
    → All (Lacks comma) (map encode_entry report) × All (Lacks closing) (map encode_entry report)
entries-Lacks [] h = (tt, tt)
entries-Lacks ((key, n) ∷ report) ((k, w), h) =
    let (commas, closings) = entries-Lacks report h in
    (
      (
        encode_entry-Lacks comma key n (All-map (λ c x. x.1) key k) (omega arith)
            (λ e. omega arith),
        commas,
      ),
      (
        encode_entry-Lacks closing key n (All-map (λ c x. x.2) key k) (omega arith)
            (λ e. omega arith),
        closings,
      ),
    )

join-Lacks :
    (b sep : ℕ) (ps : List Bytes) → sep ≢ b → All (Lacks b) ps → Lacks b (join ps (sep ∷ []))
unfolding join
join-Lacks b sep [] n h = tt
join-Lacks b sep (p ∷ []) n h = h.0
join-Lacks b sep (p ∷ q ∷ ps) n (x, h) =
    All-append (λ c. c ≢ b) p _ x (n, join-Lacks b sep (q ∷ ps) n h)

map-ne-nil : (report : List (Bytes × ℕ)) → report ≢ [] → map encode_entry report ≢ []
map-ne-nil [] h = absurd (h refl)
map-ne-nil (e ∷ report) h = λ x. cc

split_body :
    (inner : Bytes)
    → Lacks closing inner
    → split (b'{' ∷ (inner ++ closing ∷ 10 ∷ [])) closing ≡ (b'{' ∷ inner) ∷ (10 ∷ []) ∷ []
unfolding join
split_body inner h =
    split-join ((b'{' ∷ inner) ∷ (10 ∷ []) ∷ []) closing (λ e. cc)
      ((λ e. omega arith, h), ((λ e. omega arith, tt), tt))

insert_key-Readable :
    (e : Bytes × ℕ) (report : List (Bytes × ℕ))
    → Readable e
    → All Readable report
    → All Readable (insert_key e report)
unfolding insert_key
insert_key-Readable e [] r h = (r, tt)
insert_key-Readable e (other ∷ report) r (x, h) = elim (Bool-cases (comes_first e.0 other.0)) [
  | inl k ↦ rw (k, insert_key) (r, (x, h))
  | inr k ↦ rw (k, insert_key) (x, insert_key-Readable e report r h)
]

sort_keys-Readable :
    (report : List (Bytes × ℕ)) → All Readable report → All Readable (sort_keys report)
unfolding sort_keys
sort_keys-Readable [] h = tt
sort_keys-Readable (e ∷ report) (r, h) =
    insert_key-Readable e (sort_keys report) r (sort_keys-Readable report h)

-- Keys that need no escapes.
abbrev pub plain_keys : List (Bytes × ℕ) → Bool
plain_keys [] = true
plain_keys (e ∷ report) = is_plain e.0 && plain_keys report

abbrev pub IsWide : Bytes × ℕ → Type 0
IsWide e = e.1 < 2 ^ 64

plain_keys-Readable :
    (report : List (Bytes × ℕ)) → plain_keys report ≡ true → All IsWide report → All Readable report
plain_keys-Readable [] h w = tt
plain_keys-Readable ((key, n) ∷ report) h (x, w) =
    (plain-Readable key n (ground arith) x, plain_keys-Readable report (ground arith) w)

-- What is encoded is read back, ordered by the keys.
pub read_object-encode :
    (report : List (Bytes × ℕ))
    → sort_keys report ≢ []
    → plain_keys report ≡ true
    → All IsWide report
    → read_object (encode report) ≡ some (sort_keys report)
unfolding read_object encode read_body
read_object-encode report n p w =
    let h = sort_keys-Readable report (plain_keys-Readable report p w) in
    let entries = map encode_entry (sort_keys report) in
    let (commas, closings) = entries-Lacks (sort_keys report) h in
    let inner = join entries (comma ∷ []) in
    let body : split (encode report) closing ≡ (b'{' ∷ inner) ∷ (10 ∷ []) ∷ [] =
      split_body inner (join-Lacks closing comma entries (λ e. omega arith) closings) in
    rw body (
      rw (split-join entries comma (map-ne-nil (sort_keys report) n) commas)
        (read_all (sort_keys report) h))
