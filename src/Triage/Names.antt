-- ===== src/Triage/Names.antt =====
-- Paths and names: the predicates, and the base name of a path.
use agentic_ebpf_patrol.Prelude.{
  ℕ, ◌+◌, ◌≡◌, ◌≢◌, refl, ◌⊎◌, inl, inr, none, some, List, [], ◌∷◌, ◌++◌, Bytes, codes, length,
  drop, drop-append, All, arith,
}
use agentic_ebpf_patrol.Text.{last_index, join}
use agentic_ebpf_patrol.Text.Search.{Lacks, LastAt, last_index-LastAt}
use agentic_ebpf_patrol.Triage.{slash, base_name}

-- A member has the property.
abbrev pub Any : (Bytes → Type 0) → List Bytes → Type 0
Any P [] = ⊥
Any P (x ∷ xs) = P x ⊎ Any P xs

-- The part of a path behind its last slash, or the whole of a path that has none.
abbrev pub BaseOf : Bytes → Bytes → Type 0
BaseOf path base =
    Lacks slash base × ((path ≡ base) ⊎ ((dir : Bytes) × (path ≡ dir ++ slash ∷ base)))

-- A path component that hides its entry.
abbrev pub IsHiddenPart : Bytes → Type 0
IsHiddenPart part =
    ((rest : Bytes) × (part ≡ codes "." ++ rest)) × (part ≢ codes ".") × (part ≢ codes "..")

-- The path is written with such a component between its slashes.
abbrev pub IsHidden : Bytes → Type 0
IsHidden path =
    (before : List Bytes) × (part : Bytes) × (after : List Bytes) × (path
      ≡ join (before ++ part ∷ after) (slash ∷ []))
    × All (Lacks slash) (before ++ part ∷ after)
    × IsHiddenPart part

-- One text begins with the other.
abbrev pub Agree : Bytes → Bytes → Type 0
Agree s t = ((rest : Bytes) × (s ≡ t ++ rest)) ⊎ ((rest : Bytes) × (t ≡ s ++ rest))

drop_behind :
    (before : Bytes) (c : ℕ) (after : Bytes)
    → drop (length before + 1) (before ++ c ∷ after) ≡ after
drop_behind before c after = drop-append before (c ∷ after) 1

pub base_name-BaseOf : (path : Bytes) → BaseOf path (base_name path)
unfolding base_name
base_name-BaseOf path =
    (elim (last_index path slash)
        as (λ r.
          LastAt path slash r → BaseOf path (elim r [ some i ↦ drop (i + 1) path | none ↦ path ])) [
            | some i ↦ λ (before, after, e, n, l).
                let back : drop (i + 1) path ≡ after =
                  rw (e, ← n) (drop_behind before slash after) in
                rw back (l, inr (before, e))
            | none ↦ λ l. (l, inl refl)
          ])
      (last_index-LastAt path slash)

last_index-none : (s : Bytes) → Lacks slash s → last_index s slash ≡ none
unfolding last_index
last_index-none [] l = refl
last_index-none (c ∷ s) l = rw (last_index-none s l.1, last_index) (ground arith)

last_index-some :
    (dir base : Bytes)
    → Lacks slash base
    → last_index (dir ++ slash ∷ base) slash ≡ some (length dir)
unfolding last_index
last_index-some [] base l = rw (last_index-none base l, last_index)
last_index-some (c ∷ dir) base l = rw (last_index-some dir base l, last_index)

-- A path has one base name only.
pub base_name_unique : (path base : Bytes) → BaseOf path base → base_name path ≡ base
unfolding base_name
base_name_unique path base (l, inl e) =
    let l' : Lacks slash path = rw e l in rw (last_index-none path l', base_name) e
base_name_unique path base (l, inr (dir, e)) =
    let found : last_index path slash ≡ some (length dir) = rw e (last_index-some dir base l) in
    rw (found, base_name, e) (drop_behind dir slash base)
