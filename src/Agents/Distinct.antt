-- ===== src/Agents/Distinct.antt =====
-- That the versions of an agent are told apart by their identifiers.
use live_kit_voice_agent.Prelude.{
  ℕ, ◌≡◌, ap, sym, ◌∙◌, true, false, not, List, [], ◌∷◌, ◌==◌, any, Memᴰ, arith, Bool-cases, inl,
  inr, ==_iff,
}
use live_kit_voice_agent.Prelude.Sorting.{all}
use live_kit_voice_agent.Agents.Versions.{AgentVersion, is_draft}
use live_kit_voice_agent.Agents.Rows.{is_distinct, ids}
use live_kit_voice_agent.Agents.Truthful.{has_id, mem-has_id}
use live_kit_voice_agent.Agents.Live.{absent}

elsewhere :
    (n : ℕ) (vs : List AgentVersion) {w : AgentVersion}
    → all (λ m. not (m == n)) (ids vs) ≡ true
    → Memᴰ w vs
    → n ≡ w.id
    → false ≡ true
elsewhere n vs {w} h m e = sym (absent n vs h) ∙ (ap (λ k. any (has_id k) vs) e ∙ mem-has_id vs m)

pub distinct-mem :
    (vs : List AgentVersion) {v w : AgentVersion}
    → is_distinct (ids vs) ≡ true
    → Memᴰ v vs
    → Memᴰ w vs
    → v.id ≡ w.id
    → v ≡ w
distinct-mem [] d m n e = elim m [ ]
distinct-mem (u ∷ vs) d (Memᴰ.head p) (Memᴰ.head q) e = p ∙ sym q
distinct-mem (u ∷ vs) d (Memᴰ.tail m) (Memᴰ.tail n) e = distinct-mem vs (ground arith) m n e
distinct-mem (u ∷ vs) d (Memᴰ.head p) (Memᴰ.tail n) e =
    let k = elsewhere u.id vs (ground arith) n (sym (ap (λ t. t.id) p) ∙ e) in
    absurd (ground (arith, k))
distinct-mem (u ∷ vs) d (Memᴰ.tail m) (Memᴰ.head q) e =
    let k = elsewhere u.id vs (ground arith) m (sym (ap (λ t. t.id) q) ∙ sym e) in
    absurd (ground (arith, k))

-- A version that is no draft has another identifier than a draft beside it.
pub draft-differs :
    (vs : List AgentVersion) {v w : AgentVersion}
    → is_distinct (ids vs) ≡ true
    → Memᴰ v vs
    → Memᴰ w vs
    → is_draft v.state ≡ false
    → is_draft w.state ≡ true
    → (v.id == w.id) ≡ false
draft-differs vs {v} {w} d m n h k = elim (Bool-cases (v.id == w.id)) [
  | inr e ↦ e
  | inl e ↦
      let same = distinct-mem vs d m n ((==_iff v.id w.id).0 e) in
      let states = ap (λ t. is_draft t.state) same in absurd (ground (arith, states))
]

pub fresh-differs :
    (i : ℕ) (vs : List AgentVersion) {v : AgentVersion}
    → any (has_id i) vs ≡ false
    → Memᴰ v vs
    → (v.id == i) ≡ false
fresh-differs i [] h m = elim m [ ]
fresh-differs i (w ∷ vs) h (Memᴰ.head e) = let same = ap (λ t. t.id) e in ground (arith, same)
fresh-differs i (w ∷ vs) h (Memᴰ.tail m) = fresh-differs i vs (ground arith) m
