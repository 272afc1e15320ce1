-- ===== src/Agents/Consistent.antt =====
-- What every sequence of requests about a tenant's agents keeps: the names differ, the phone numbers
-- are answered by agents that exist, and the states of each agent's versions are what its pointer says.
use live_kit_voice_agent.Prelude.{
  ℕ, ◌≡◌, refl, ap, sym, ◌∙◌, true, false, List, [], ◌∷◌, map, any, Memᴰ, arith, Option-cases, inl,
  inr, ==_iff, All,
}
use live_kit_voice_agent.Prelude.Sorting.{all, all-weaken}
use live_kit_voice_agent.Prelude.Text.{Text, text_eq}
use live_kit_voice_agent.Agents.Versions.{Agent, Result, done, raised, rows}
use live_kit_voice_agent.Agents.Rows.{is_distinct}
use live_kit_voice_agent.Agents.Truthful.{IsTruthful}
use live_kit_voice_agent.Agents.Directory.{
  PhoneNumber, Directory, is_named, is_agent, put_agent, is_other, put_result,
}
use live_kit_voice_agent.Agents.Replacement.{
  distinct_names, is_answered, any-put_agent, ids-put_agent, IsTruthful-put_agent, names-put_agent,
  text_eq_sym,
}

pub record IsConsistent (d : Directory) : Type 0 where
  pub ids : is_distinct (map (λ a. a.id) d.agents) ≡ true
  pub names : distinct_names d.agents ≡ true
  pub answered : all (is_answered d.agents) d.phone_numbers ≡ true
  pub truthful : All IsTruthful d.agents

-- The replacement of the agent's row.
abbrev pub put : ℕ → Agent → Directory → Directory
put i b d = record d { agents = put_agent i b d.agents }

answered-put_agent :
    (i : ℕ) (b : Agent) (agents : List Agent) (ns : List PhoneNumber)
    → b.id ≡ i
    → all (is_answered agents) ns ≡ true
    → all (is_answered (put_agent i b agents)) ns ≡ true
answered-put_agent i b agents ns e h =
    all-weaken ns
      (λ n k. elim (Option-cases n.inbound_agent_id) [
        | inl f ↦ ground (arith, f)
        | inr (j, f) ↦ let same = any-put_agent i j b agents e in ground (arith, f, same, k)
      ])
      h

pub put-IsConsistent :
    (i : ℕ) (b : Agent) (d : Directory)
    → b.id ≡ i
    → any (is_other i b.name) d.agents ≡ false
    → IsTruthful b
    → IsConsistent d
    → IsConsistent (put i b d)
put-IsConsistent i b d e o t w = record {
  ids = ap is_distinct (ids-put_agent i b d.agents e) ∙ w.ids;
  names = names-put_agent i b d.agents w.ids w.names o;
  answered = answered-put_agent i b d.agents d.phone_numbers e w.answered;
  truthful = IsTruthful-put_agent i b d.agents t w.truthful;
}

pub rows-put_result :
    (i : ℕ) (d : Directory) (r : Result Agent) → rows (put_result i d r) ≡ put i (rows r) d
rows-put_result i d (done b) = refl
rows-put_result i d (raised e b) = refl

apart :
    (t : Text) (agents : List Agent) {a : Agent}
    → any (is_named t) agents ≡ false
    → Memᴰ a agents
    → text_eq t a.name ≡ false
apart t [] h m = elim m [ ]
apart t (b ∷ agents) {a} h (Memᴰ.head e) =
    let same = ap (λ x. text_eq t x.name) e in
    let mirror = text_eq_sym t b.name in ground (arith, same, mirror)
apart t (b ∷ agents) h (Memᴰ.tail m) = apart t agents (ground arith) m

no_others :
    (i : ℕ) (t : Text) (agents : List Agent)
    → any (is_named t) agents ≡ false
    → any (is_other i t) agents ≡ false
no_others i t [] h = refl
no_others i t (a ∷ agents) h =
    let rest = no_others i t agents (ground arith) in ground (arith, rest)

-- No other agent has the name of an agent.
pub own_name :
    (agents : List Agent) {a : Agent}
    → distinct_names agents ≡ true
    → Memᴰ a agents
    → any (is_other a.id a.name) agents ≡ false
own_name [] h m = elim m [ ]
own_name (b ∷ agents) {a} h (Memᴰ.tail m) =
    let rest = own_name agents (ground arith) m in
    let other = apart b.name agents (ground arith) m in ground (arith, rest, other)
own_name (b ∷ agents) {a} h (Memᴰ.head e) =
    let rest : any (is_other a.id a.name) agents ≡ false =
      no_others a.id a.name agents (ap (λ x. any (is_named x.name) agents) e ∙ ground arith) in
    let self : is_agent a.id b ≡ true = (==_iff b.id a.id).1 (sym (ap (λ x. x.id) e)) in
    ground (arith, rest, self)
