-- ===== src/Drift/Marks.antt =====
-- The status that a check leaves on a row.
use live_kit_voice_agent.Prelude.{
  ℕ, ◌≡◌, refl, ◌∙◌, Bool, true, false, not, ◌&&◌, Option, none, some, List, [], ◌∷◌, ◌++◌,
  if◌then◌else◌, ◌==◌, coalesce, is_some, arith, Option-cases, inl, inr, Memᴰ, ==_iff,
}
use live_kit_voice_agent.Prelude.Sorting.{all, all-mem}
use live_kit_voice_agent.Prelude.Text.{Text}
use live_kit_voice_agent.Drift.Compare.{
  Row, DriftFinding, ResourceKind, sip_trunk, SipTrunk, TrunkSnapshot, DispatchRule,
  DispatchRuleSnapshot, dispatch_rule, compare_rules, recorded_id, live, compare_row,
  compare_recorded, compare_rows, find_orphans, compare, compare_trunks, synced, drifted,
}
use live_kit_voice_agent.Drift.Report.{finding_of, apply_to}
use live_kit_voice_agent.Drift.Agreement.{
  matches_live, trunk_row, trunk_id, trunk_name, match_trunk, rule_row, rule_id, rule_name,
  match_rule,
}

finding_of-append :
    (fs gs : List DriftFinding) (i : ℕ)
    → finding_of (fs ++ gs) i ≡ coalesce (finding_of gs i) (finding_of fs i)
unfolding finding_of
finding_of-append [] gs i = ground arith
finding_of-append (f ∷ fs) gs i = let rest = finding_of-append fs gs i in ground (arith, rest)

coalesce-none {ℓ} : {A : Type ℓ} (o : Option A) → coalesce o none ≡ o
coalesce-none none = refl
coalesce-none (some a) = refl

module _ {R S : Type 0} (resource : ResourceKind) (row_of : R → Row) (id_of : S → Text)
    (name_of : S → Text) (matches : S → R → Bool) where
  finding_of-find_orphans :
      (rs : List R) (ss : List S) (i : ℕ)
      → finding_of (find_orphans resource row_of id_of name_of matches rs ss) i ≡ none
  unfolding find_orphans finding_of
  finding_of-find_orphans rs [] i = refl
  finding_of-find_orphans rs (s ∷ ss) i =
      let rest = finding_of-find_orphans rs ss i in ground (arith, rest)

  finding_of-compare_row :
      (r : R) (j : Text) (o : Option S)
      → is_some (finding_of (compare_row resource row_of id_of name_of matches r j o) (row_of r).id)
        ≡ not (matches_live resource row_of id_of name_of matches r o)
  unfolding compare_row finding_of
  finding_of-compare_row r j none =
      let e = (==_iff (row_of r).id (row_of r).id).1 refl in ground (arith, e)
  finding_of-compare_row r j (some s) =
      let e = (==_iff (row_of r).id (row_of r).id).1 refl in ground (arith, e)

  finding_of-compare_row_other :
      (r : R) (j : Text) (o : Option S) (i : ℕ)
      → ((row_of r).id == i) ≡ false
      → finding_of (compare_row resource row_of id_of name_of matches r j o) i ≡ none
  unfolding compare_row finding_of
  finding_of-compare_row_other r j none i h = ground (arith, h)
  finding_of-compare_row_other r j (some s) i h = ground (arith, h)

  finding_of-other :
      (ss : List S) (r : R) (o : Option Text) (i : ℕ)
      → ((row_of r).id == i) ≡ false
      → finding_of (compare_recorded resource row_of id_of name_of matches ss r o) i ≡ none
  unfolding finding_of
  finding_of-other ss r none i h = refl
  finding_of-other ss r (some j) i h =
      finding_of-compare_row_other r j (live resource row_of id_of name_of matches ss j) i h

  abbrev pub is_other : ℕ → R → Bool
  is_other i r = not ((row_of r).id == i)

  abbrev pub are_distinct : List R → Bool
  are_distinct [] = true
  are_distinct (r ∷ rs) = all (is_other (row_of r).id) rs && are_distinct rs

  finding_of-others :
      (ss : List S) (rs : List R) (i : ℕ)
      → all (is_other i) rs ≡ true
      → finding_of (compare_rows resource row_of id_of name_of matches ss rs) i ≡ none
  unfolding compare_rows finding_of
  finding_of-others ss [] i h = refl
  finding_of-others ss (r ∷ rs) i h =
      let here =
        compare_recorded resource row_of id_of name_of matches ss r (recorded_id (row_of r)) in
      let there = compare_rows resource row_of id_of name_of matches ss rs in
      finding_of-append here there i
      ∙ rw
          (
            finding_of-others ss rs i (ground arith),
            finding_of-other ss r (recorded_id (row_of r)) i (ground arith),
          )
          refl

  finding_of-first :
      (ss : List S) (rs : List R) (r : R) (j : Text)
      → all (is_other (row_of r).id) rs ≡ true
      → recorded_id (row_of r) ≡ some j
      → is_some (
          finding_of
            (compare_recorded resource row_of id_of name_of matches ss r (recorded_id (row_of r))
              ++ compare_rows resource row_of id_of name_of matches ss rs)
            (row_of r).id)
        ≡ not (
            matches_live resource row_of id_of name_of matches r
              (live resource row_of id_of name_of matches ss j))
  finding_of-first ss rs r j h e =
      let there = compare_rows resource row_of id_of name_of matches ss rs in
      let here =
        compare_recorded resource row_of id_of name_of matches ss r (recorded_id (row_of r)) in
      rw (finding_of-append here there (row_of r).id, finding_of-others ss rs (row_of r).id h, e)
        (finding_of-compare_row r j (live resource row_of id_of name_of matches ss j))

  finding_of-compare_rows :
      (ss : List S) (rs : List R) (r : R) (j : Text)
      → are_distinct rs ≡ true
      → Memᴰ r rs
      → recorded_id (row_of r) ≡ some j
      → is_some
          (finding_of (compare_rows resource row_of id_of name_of matches ss rs) (row_of r).id)
        ≡ not (
            matches_live resource row_of id_of name_of matches r
              (live resource row_of id_of name_of matches ss j))
  unfolding compare_rows
  finding_of-compare_rows ss [] r j d m e = elim m [ ]
  finding_of-compare_rows ss (s ∷ rs) r j d (Memᴰ.head same) e =
      rw same (finding_of-first ss rs s j (ground arith) (rw (← same) e))
  finding_of-compare_rows ss (s ∷ rs) r j d (Memᴰ.tail m) e =
      let there = compare_rows resource row_of id_of name_of matches ss rs in
      let here =
        compare_recorded resource row_of id_of name_of matches ss s (recorded_id (row_of s)) in
      let apart = all-mem (is_other (row_of s).id) rs (ground arith) m in
      let rest = finding_of-compare_rows ss rs r j (ground arith) m e in
      rw
        (
          finding_of-append here there (row_of r).id,
          finding_of-other ss s (recorded_id (row_of s)) (row_of r).id (ground (arith, apart)),
          coalesce-none (finding_of there (row_of r).id),
        )
        rest

  finding_of-compare :
      (rs : List R) (ss : List S) (others : List DriftFinding) (r : R) (j : Text)
      → are_distinct rs ≡ true
      → Memᴰ r rs
      → recorded_id (row_of r) ≡ some j
      → finding_of others (row_of r).id ≡ none
      → is_some
          (finding_of (compare resource row_of id_of name_of matches rs ss ++ others) (row_of r).id)
        ≡ not (
            matches_live resource row_of id_of name_of matches r
              (live resource row_of id_of name_of matches ss j))
  unfolding compare
  finding_of-compare rs ss others r j d m e none_else =
      let rows = compare_rows resource row_of id_of name_of matches ss rs in
      let orphans = find_orphans resource row_of id_of name_of matches rs ss in
      rw
        (
          finding_of-append (rows ++ orphans) others (row_of r).id,
          none_else,
          finding_of-append rows orphans (row_of r).id,
          finding_of-find_orphans rs ss (row_of r).id,
        )
        (finding_of-compare_rows ss rs r j d m e)

apply_to-sync_status :
    (fs : List DriftFinding) (now : ℕ) (r : Row) (i : Text) (b : Bool)
    → recorded_id r ≡ some i
    → is_some (finding_of fs r.id) ≡ not b
    → (apply_to fs now r).sync_status ≡ (if b then synced else drifted)
unfolding apply_to
apply_to-sync_status fs now r i b e h = elim (Option-cases (finding_of fs r.id)) [
  | inl f ↦ ground (arith, e, h, f)
  | inr (x, f) ↦ ground (arith, e, h, f)
]

pub apply_to-compare_rules :
    (rs : List (DispatchRule × List Text)) (ss : List DispatchRuleSnapshot)
    (others : List DriftFinding) (r : DispatchRule × List Text) (i : Text) (now : ℕ)
    → are_distinct dispatch_rule rule_row rule_id rule_name match_rule rs ≡ true
    → Memᴰ r rs
    → recorded_id r.0.row ≡ some i
    → finding_of others r.0.row.id ≡ none
    → (apply_to (compare_rules rs ss ++ others) now r.0.row).sync_status ≡ (
        if matches_live dispatch_rule rule_row rule_id rule_name match_rule r
          (live dispatch_rule rule_row rule_id rule_name match_rule ss i)
        then synced
        else drifted)
unfolding compare_rules
apply_to-compare_rules rs ss others r i now d m e none_else =
    apply_to-sync_status (compare_rules rs ss ++ others) now r.0.row i _ e (
      finding_of-compare dispatch_rule rule_row rule_id rule_name match_rule rs ss others r i d m e
        none_else)

-- A row that records a LiveKit identifier, among rows of distinct identifiers, is synchronised after a
-- check exactly if LiveKit holds a trunk of that identifier that matches it, and drifted otherwise,
-- where no other finding marks it.
pub apply_to-compare_trunks :
    (ts : List (SipTrunk × List Text)) (ss : List TrunkSnapshot) (others : List DriftFinding)
    (t : SipTrunk × List Text) (i : Text) (now : ℕ)
    → are_distinct sip_trunk trunk_row trunk_id trunk_name match_trunk ts ≡ true
    → Memᴰ t ts
    → recorded_id t.0.row ≡ some i
    → finding_of others t.0.row.id ≡ none
    → (apply_to (compare_trunks ts ss ++ others) now t.0.row).sync_status ≡ (
        if matches_live sip_trunk trunk_row trunk_id trunk_name match_trunk t
          (live sip_trunk trunk_row trunk_id trunk_name match_trunk ss i)
        then synced
        else drifted)
unfolding compare_trunks
apply_to-compare_trunks ts ss others t i now d m e none_else =
    apply_to-sync_status (compare_trunks ts ss ++ others) now t.0.row i _ e (
      finding_of-compare sip_trunk trunk_row trunk_id trunk_name match_trunk ts ss others t i d m e
        none_else)
