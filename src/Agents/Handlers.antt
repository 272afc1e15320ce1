-- ===== src/Agents/Handlers.antt =====
-- That each handler of api/v1/agents.py keeps a tenant's agents consistent.
use mathlib.Core.Path.{subst}
use live_kit_voice_agent.Prelude.{
  ℕ, ◌≡◌, refl, ap, sym, ◌∙◌, true, false, not, Option, none, some, List, [], ◌∷◌, map, ◌==◌,
  if◌then◌else◌, any, find, is_some, Memᴰ, arith, Bool-cases, Option-cases, inl, inr, ==_iff, All,
}
use live_kit_voice_agent.Prelude.Finding.{find-mem, find-passes}
use live_kit_voice_agent.Prelude.Sorting.{all, all-weaken, all-mem}
use live_kit_voice_agent.Prelude.Text.{Text, text_eq, text_eq_iff}
use live_kit_voice_agent.Agents.Catalog.{Catalog, Change}
use live_kit_voice_agent.Agents.Validation.{validate_references, validate_version, is_publishable}
use live_kit_voice_agent.Agents.Versions.{
  Agent, AgentVersion, Result, done, raised, rows, name_taken,
}
use live_kit_voice_agent.Agents.Saving.{save_draft}
use live_kit_voice_agent.Agents.Publishing.{
  publish_found, publish_version, put_live, is_pointer, rollback_found, rollback_to,
}
use live_kit_voice_agent.Agents.Truthful.{has_id, IsTruthful}
use live_kit_voice_agent.Agents.Lifecycle.{Step, Step-IsTruthful}
use live_kit_voice_agent.Agents.Directory.{
  PhoneNumber, Directory, AgentUpdate, is_named, is_agent, new_agent, create_agent, or_old,
  set_agent, is_other, clashes, on_found, on_agent, update_agent, routes_to, delete_agent,
}
use live_kit_voice_agent.Agents.Replacement.{distinct_names, is_answered}
use live_kit_voice_agent.Agents.Consistent.{
  IsConsistent, put-IsConsistent, rows-put_result, own_name,
}
use live_kit_voice_agent.Agents.Removal.{
  remove_ids, remove_names, remove_answered, remove-IsTruthful,
}

-- A handler that keeps what tells an agent from the others, on the row of the agent.
on_found-IsConsistent :
    (i : ℕ) (handler : Agent → Result Agent) (d : Directory) (o : Option Agent)
    → find (is_agent i) d.agents ≡ o
    → ((a : Agent) → Memᴰ a d.agents → (rows (handler a)).id ≡ a.id)
    → ((a : Agent) → Memᴰ a d.agents → any (is_other a.id (rows (handler a)).name) d.agents ≡ false)
    → ((a : Agent) → Memᴰ a d.agents → IsTruthful (rows (handler a)))
    → IsConsistent d
    → IsConsistent (rows (on_found i handler d o))
on_found-IsConsistent i handler d none f hi hn ht w = w
on_found-IsConsistent i handler d (some a) f hi hn ht w =
    let m = find-mem (is_agent i) d.agents f in
    let same = (==_iff a.id i).0 (find-passes (is_agent i) d.agents f) in
    let b = rows (handler a) in
    let free : any (is_other i b.name) d.agents ≡ false =
      ap (λ j. any (is_other j b.name) d.agents) (sym same) ∙ hn a m in
    rw (rows-put_result i d (handler a)) (put-IsConsistent i b d (hi a m ∙ same) free (ht a m) w)

All-mem : (agents : List Agent) {a : Agent} → All IsTruthful agents → Memᴰ a agents → IsTruthful a
All-mem [] h m = elim m [ ]
All-mem (b ∷ agents) h (Memᴰ.head e) = subst IsTruthful (sym e) h.0
All-mem (b ∷ agents) h (Memᴰ.tail m) = All-mem agents h.1 m

-- What a step on the versions keeps of the agent.
pub record IsSameAgent (a b : Agent) : Type 0 where
  id : b.id ≡ a.id
  name : b.name ≡ a.name

pub on_versions-IsConsistent :
    (i : ℕ) (handler : Agent → Result Agent) (d : Directory)
    → ((a : Agent) → IsSameAgent a (rows (handler a)))
    → ((a : Agent) → Memᴰ a d.agents → Step a (rows (handler a)))
    → IsConsistent d
    → IsConsistent (rows (on_agent i handler d))
unfolding on_agent
on_versions-IsConsistent i handler d same step w =
    on_found-IsConsistent i handler d (find (is_agent i) d.agents) refl (λ a m. (same a).id)
      (λ a m. ap (λ t. any (is_other a.id t) d.agents) (same a).name ∙ own_name d.agents w.names m)
      (λ a m. Step-IsTruthful (step a m) (All-mem d.agents w.truthful m)) w

pub save_draft-IsSameAgent :
    (c : Catalog) (n : ℕ) (changes : List Change) (tools : Option (List ℕ)) (a : Agent)
    → IsSameAgent a (rows (save_draft c n changes tools a))
unfolding save_draft
save_draft-IsSameAgent c n changes tools a =
    elim (Bool-cases (validate_references c changes tools)) [
      | inl e ↦ rw e (record { id = refl; name = refl })
      | inr e ↦ rw e (record { id = refl; name = refl })
    ]

pub publish_found-IsSameAgent :
    (c : Catalog) (now user : ℕ) (change_note : Option Text) (a : Agent) (o : Option AgentVersion)
    → IsSameAgent a (rows (publish_found c now user change_note a o))
unfolding publish_version put_live
publish_found-IsSameAgent c now user change_note a none = record { id = refl; name = refl }
publish_found-IsSameAgent c now user change_note a (some v) =
    elim (Bool-cases (is_publishable (validate_version c v.config v.grants))) [
      | inl e ↦ rw e (record { id = refl; name = refl })
      | inr e ↦ rw e (record { id = refl; name = refl })
    ]

pub rollback_found-IsSameAgent :
    (c : Catalog) (now user : ℕ) (a : Agent) (o : Option AgentVersion)
    → IsSameAgent a (rows (rollback_found c now user a o))
unfolding rollback_to put_live
rollback_found-IsSameAgent c now user a none = record { id = refl; name = refl }
rollback_found-IsSameAgent c now user a (some v) =
    elim (Bool-cases (is_pointer a.published_version_id v.id)) [
      | inl e ↦ rw e (record { id = refl; name = refl })
      | inr e ↦ elim (Bool-cases (is_publishable (validate_version c v.config v.grants))) [
        | inl f ↦ rw (e, f) (record { id = refl; name = refl })
        | inr f ↦ rw (e, f) (record { id = refl; name = refl })
      ]
    ]

fresh_agents :
    (i : ℕ) (agents : List Agent)
    → any (is_agent i) agents ≡ false
    → all (λ m. not (m == i)) (map (λ a. a.id) agents) ≡ true
fresh_agents i [] h = refl
fresh_agents i (a ∷ agents) h =
    let rest = fresh_agents i agents (ground arith) in ground (arith, rest)

-- The numbers are still answered where no agent is taken away from those that they name.
answered-weaken :
    (agents rest : List Agent) (ns : List PhoneNumber)
    → ((j : ℕ) → any (is_agent j) agents ≡ true → any (is_agent j) rest ≡ true)
    → all (is_answered agents) ns ≡ true
    → all (is_answered rest) ns ≡ true
answered-weaken agents rest ns h k =
    all-weaken ns
      (λ n g. elim (Option-cases n.inbound_agent_id) [
        | inl f ↦ ground (arith, f)
        | inr (j, f) ↦ let kept = h j (ground (arith, f, g)) in ground (arith, f, kept)
      ])
      k

new_agent-IsTruthful :
    (i version : ℕ) (name : Text) (description : Option Text)
    → IsTruthful (new_agent i version name description)
new_agent-IsTruthful i version name description = record {
  ids_distinct = refl;
  numbers_distinct = refl;
  told = refl;
  present = refl;
}

pub create_agent-IsConsistent :
    (i version : ℕ) (name : Text) (description : Option Text) (d : Directory)
    → any (is_agent i) d.agents ≡ false
    → IsConsistent d
    → IsConsistent (rows (create_agent i version name description d))
unfolding create_agent
create_agent-IsConsistent i version name description d h w =
    elim (Bool-cases (any (is_named name) d.agents)) [
      | inl e ↦ rw e w
      | inr e ↦ rw e (record {
        ids =
            let fresh = fresh_agents i d.agents h in let ids = w.ids in ground (arith, fresh, ids);
        names = let names = w.names in ground (arith, e, names);
        answered =
            let a = new_agent i version name description in
            answered-weaken d.agents (a ∷ d.agents) d.phone_numbers (λ j k. ground arith)
              w.answered;
        truthful = (new_agent-IsTruthful i version name description, w.truthful);
      })
    ]

or_old-clashes :
    (o : Option Text) (a : Agent) (agents : List Agent)
    → distinct_names agents ≡ true
    → Memᴰ a agents
    → clashes o a agents ≡ false
    → any (is_other a.id (or_old o a.name)) agents ≡ false
or_old-clashes none a agents n m h = own_name agents n m
or_old-clashes (some t) a agents n m h = elim (Bool-cases (text_eq t a.name)) [
  | inr e ↦ ground (arith, e)
  | inl e ↦
      ap (λ x. any (is_other a.id x) agents) ((text_eq_iff t a.name).0 e) ∙ own_name agents n m
]

set_agent-IsTruthful : (u : AgentUpdate) (a : Agent) → IsTruthful a → IsTruthful (set_agent u a)
set_agent-IsTruthful u a t = record {
  ids_distinct = t.ids_distinct;
  numbers_distinct = t.numbers_distinct;
  told = t.told;
  present = t.present;
}

module _ (u : AgentUpdate) (d : Directory) (w : IsConsistent d) where
  abbrev change : Agent → Result Agent
  change a = if clashes u.name a d.agents then raised name_taken a else done (set_agent u a)

  change_id : (a : Agent) → (rows (change a)).id ≡ a.id
  change_id a = elim (Bool-cases (clashes u.name a d.agents)) [
    | inl e ↦ rw e refl
    | inr e ↦ rw e refl
  ]

  change_name :
      (a : Agent) → Memᴰ a d.agents → any (is_other a.id (rows (change a)).name) d.agents ≡ false
  change_name a m = elim (Bool-cases (clashes u.name a d.agents)) [
    | inl e ↦ rw e (own_name d.agents w.names m)
    | inr e ↦ rw e (or_old-clashes u.name a d.agents w.names m e)
  ]

  change-IsTruthful : (a : Agent) → Memᴰ a d.agents → IsTruthful (rows (change a))
  change-IsTruthful a m =
      let t = All-mem d.agents w.truthful m in
      elim (Bool-cases (clashes u.name a d.agents)) [
        | inl e ↦ rw e t
        | inr e ↦ rw e (set_agent-IsTruthful u a t)
      ]

  pub update_agent-IsConsistent : (i : ℕ) → IsConsistent (rows (update_agent i u d))
  unfolding update_agent on_agent
  update_agent-IsConsistent i =
      on_found-IsConsistent i change d (find (is_agent i) d.agents) refl (λ a m. change_id a)
        change_name change-IsTruthful w

pub delete_agent-IsConsistent :
    (i : ℕ) (d : Directory) → IsConsistent d → IsConsistent (rows (delete_agent i d))
unfolding delete_agent
delete_agent-IsConsistent i d w = elim (Bool-cases (is_some (find (is_agent i) d.agents))) [
  | inr e ↦ rw e w
  | inl e ↦ elim (Bool-cases (any (routes_to i) d.phone_numbers)) [
    | inl f ↦ rw (e, f) w
    | inr f ↦
        rw (e, f)
          (record {
            ids = remove_ids i d.agents w.ids;
            names = remove_names i d.agents w.names;
            answered = remove_answered i d.agents d.phone_numbers f w.answered;
            truthful = remove-IsTruthful i d.agents w.truthful;
          })
  ]
]

pub fresh_version :
    (n : ℕ) (agents : List Agent) {a : Agent}
    → all (λ b. not (any (has_id n) b.versions)) agents ≡ true
    → Memᴰ a agents
    → any (has_id n) a.versions ≡ false
fresh_version n agents {a} h m =
    let fresh = all-mem (λ b. not (any (has_id n) b.versions)) agents h m in ground (arith, fresh)
