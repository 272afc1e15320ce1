-- ===== src/Sync/Sameness.antt =====
-- That what was sent and comes back the same passes the tests of a check.
use live_kit_voice_agent.Prelude.{
  ◌≡◌, refl, ap, sym, Bool, true, false, Option, none, some, List, [], ◌∷◌, arith,
}
use live_kit_voice_agent.Prelude.Sorting.{all, all-weaken}
use live_kit_voice_agent.Prelude.Text.{Text, text_eq, text_eq_iff, is_truthy}
use live_kit_voice_agent.Drift.Compare.{
  SyncStatus, synced, pending, failed, drifted, is_in_texts, same_set, same_option, or_none,
}
use live_kit_voice_agent.Sync.LiveKit.{or_empty}

abbrev pub is_synced : SyncStatus → Bool
is_synced synced = true
is_synced pending = false
is_synced failed = false
is_synced drifted = false

pub text_eq_refl : (t : Text) → text_eq t t ≡ true
text_eq_refl t = (text_eq_iff t t).1 refl

all_self : (xs : List Text) → all (is_in_texts xs) xs ≡ true
all_self [] = refl
all_self (x ∷ xs) =
    let here = text_eq_refl x in
    let rest =
      all-weaken {p = is_in_texts xs} {q = is_in_texts (x ∷ xs)} xs (λ y h. ground (arith, h))
        (all_self xs) in
    ground (arith, here, rest)

pub same_set_refl : (xs : List Text) → same_set xs xs ≡ true
same_set_refl xs = let self = all_self xs in ground (arith, self)

-- An empty text and none are the same.
pub same_or_empty :
    (o : Option Text) → same_option (or_none (or_none (some (or_empty o)))) (or_none o) ≡ true
same_or_empty none = refl
same_or_empty (some []) = refl
same_or_empty (some (c ∷ cs)) = text_eq_refl (c ∷ cs)

pub or_none-is_truthy : (o : Option Text) (i : Text) → or_none o ≡ some i → is_truthy i ≡ true
or_none-is_truthy none i h = absurd (ground arith)
or_none-is_truthy (some []) i h = absurd (ground arith)
or_none-is_truthy (some (c ∷ cs)) i h = let e : (c ∷ cs) ≡ i = ground arith in ap is_truthy (sym e)
