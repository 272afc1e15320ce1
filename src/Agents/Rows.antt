-- ===== src/Agents/Rows.antt =====
-- What an update by identifier keeps of the versions, and what the latest of them is.
use live_kit_voice_agent.Prelude.{
  ℕ, ◌≡◌, refl, ap, Bool, true, false, not, ◌&&◌, none, some, List, [], ◌∷◌, map, ◌==◌, leb,
  if◌then◌else◌, Memᴰ, arith, Bool-cases, Option-cases, inl, inr,
}
use live_kit_voice_agent.Prelude.Sorting.{all}
use live_kit_voice_agent.Agents.Versions.{AgentVersion, update, latest, any_version}

-- The numbers all differ.
abbrev pub is_distinct : List ℕ → Bool
is_distinct [] = true
is_distinct (n ∷ ns) = all (λ m. not (m == n)) ns && is_distinct ns

abbrev pub ids : List AgentVersion → List ℕ
ids = map (λ v. v.id)

abbrev pub numbers : List AgentVersion → List ℕ
numbers = map (λ v. v.version_number)

abbrev pub update_one : ℕ → (AgentVersion → AgentVersion) → AgentVersion → AgentVersion
update_one i f v = if v.id == i then f v else v

pub update-map :
    {A : Type 0} (g : AgentVersion → A) (i : ℕ) (f : AgentVersion → AgentVersion)
    (vs : List AgentVersion)
    → ((v : AgentVersion) → g (f v) ≡ g v)
    → map g (update i f vs) ≡ map g vs
unfolding update
update-map g i f [] h = refl
update-map g i f (v ∷ vs) h = elim (Bool-cases (v.id == i)) [
  | inl same ↦ rw (same, h v, update-map g i f vs h)
  | inr differs ↦ rw (differs, update-map g i f vs h)
]

pub update-mem :
    (i : ℕ) (f : AgentVersion → AgentVersion) (vs : List AgentVersion) {v : AgentVersion}
    → Memᴰ v vs
    → Memᴰ (update_one i f v) (update i f vs)
unfolding update
update-mem i f [] m = elim m [ ]
update-mem i f (w ∷ vs) (Memᴰ.head e) = Memᴰ.head (ap (update_one i f) e)
update-mem i f (w ∷ vs) (Memᴰ.tail m) = Memᴰ.tail (update-mem i f vs m)

-- A test holds after the update where a test before it carries it over.
pub update-all :
    (p q : AgentVersion → Bool) (i : ℕ) (f : AgentVersion → AgentVersion) (vs : List AgentVersion)
    → ((v : AgentVersion) → p v ≡ true → q (update_one i f v) ≡ true)
    → all p vs ≡ true
    → all q (update i f vs) ≡ true
unfolding update
update-all p q i f [] h k = refl
update-all p q i f (v ∷ vs) h k =
    let here = h v (ground arith) in
    let rest = update-all p q i f vs h (ground arith) in ground (arith, here, rest)

pub latest-mem :
    (test : AgentVersion → Bool) (vs : List AgentVersion) {v : AgentVersion}
    → latest test vs ≡ some v
    → Memᴰ v vs
unfolding latest
latest-mem test [] h = cc
latest-mem test (w ∷ vs) {v} h = elim (Bool-cases (test w)) [
  | inr fails ↦ Memᴰ.tail (latest-mem test vs (ground arith))
  | inl passes ↦ elim (Option-cases (latest test vs)) [
    | inl e ↦ Memᴰ.head (ground (arith, e))
    | inr (u, e) ↦ elim (Bool-cases (leb u.version_number w.version_number)) [
      | inl above ↦ Memᴰ.head (ground (arith, e))
      | inr below ↦ Memᴰ.tail (latest-mem test vs (let k : u ≡ v = ground (arith, e) in cc))
    ]
  ]
]

pub latest-passes :
    (test : AgentVersion → Bool) (vs : List AgentVersion) {v : AgentVersion}
    → latest test vs ≡ some v
    → test v ≡ true
unfolding latest
latest-passes test [] h = cc
latest-passes test (w ∷ vs) {v} h = elim (Bool-cases (test w)) [
  | inr fails ↦ latest-passes test vs (ground arith)
  | inl passes ↦ elim (Option-cases (latest test vs)) [
    | inl e ↦ let k : w ≡ v = ground (arith, e) in cc
    | inr (u, e) ↦ elim (Bool-cases (leb u.version_number w.version_number)) [
      | inl above ↦ let k : w ≡ v = ground (arith, e) in cc
      | inr below ↦ latest-passes test vs (let k : u ≡ v = ground (arith, e) in cc)
    ]
  ]
]

abbrev pub up_to : ℕ → AgentVersion → Bool
up_to n v = leb v.version_number n

all-up_to :
    (m n : ℕ) (vs : List AgentVersion)
    → all (up_to m) vs ≡ true
    → leb m n ≡ true
    → all (up_to n) vs ≡ true
all-up_to m n [] h k = refl
all-up_to m n (v ∷ vs) h k = let rest = all-up_to m n vs (ground arith) k in ground (arith, rest)

latest-none :
    (vs : List AgentVersion) (w : AgentVersion) → latest any_version (w ∷ vs) ≡ none → false ≡ true
unfolding latest
latest-none vs w h = ground arith

pub latest_empty : (vs : List AgentVersion) → latest any_version vs ≡ none → vs ≡ []
latest_empty [] h = refl
latest_empty (v ∷ vs) h = absurd (ground (arith, latest-none vs v h))

-- No version has a greater number than the latest.
pub latest-all :
    (vs : List AgentVersion) {v : AgentVersion}
    → latest any_version vs ≡ some v
    → all (up_to v.version_number) vs ≡ true
unfolding latest
latest-all [] h = refl
latest-all (w ∷ []) {v} h = let k : w ≡ v = ground arith in ground (arith, k)
latest-all (w ∷ x ∷ vs) {v} h = elim (Option-cases (latest any_version (x ∷ vs))) [
  | inl e ↦ absurd (ground (arith, latest-none vs x e))
  | inr (u, e) ↦
      let rest = latest-all (x ∷ vs) e in
      elim (Bool-cases (leb u.version_number w.version_number)) [
        | inl above ↦
            let k : w ≡ v = ground (arith, e) in
            let n = ap (λ t. t.version_number) k in
            let wider =
              all-up_to u.version_number v.version_number (x ∷ vs) rest
                (ground (arith, n, above)) in
            ground (arith, n, wider)
        | inr below ↦
            let k : u ≡ v = ground (arith, e) in
            let n = ap (λ t. t.version_number) k in
            let wider =
              all-up_to u.version_number v.version_number (x ∷ vs) rest (ground (arith, n)) in
            ground (arith, n, wider, below)
      ]
]
