-- ===== src/Entities/Party.antt =====
-- ayatori/src/entities/party.rs: groups of parties that are to provide something. The trait
-- `PartyGroup` is a record of its methods, and `ThresholdGroup` the implementation in the crate.
pub mod Quorums
use ayatori.Prelude.{ℕ, Bool, leb, length}
use ayatori.Collections.Order.{Ord}
use ayatori.Collections.BTreeSet.{BTreeSet, intersection, difference}

pub record PartyGroup (PartyId : Type 0) : Type 0 where
  pub ids : BTreeSet PartyId
  pub has_quorum : BTreeSet PartyId → Bool
  pub is_quorum_possible : BTreeSet PartyId → Bool

pub record ThresholdGroup (PartyId : Type 0) : Type 0 where
  pub ids : BTreeSet PartyId
  pub threshold : ℕ

module _ {PartyId : Type 0} where
  unfoldable pub new_threshold : BTreeSet PartyId → ℕ → ThresholdGroup PartyId
  new_threshold ids threshold = record { ids = ids; threshold = threshold }

  unfoldable pub new_group : BTreeSet PartyId → ThresholdGroup PartyId
  unfolding new_threshold
  new_group ids = new_threshold ids (length ids)

module _ {PartyId : Type 0} ⦃o : Ord PartyId⦄ where
  unfoldable pub has_quorum : ThresholdGroup PartyId → BTreeSet PartyId → Bool
  has_quorum g ids = leb g.threshold (length (intersection ids g.ids))

  unfoldable pub is_quorum_possible : ThresholdGroup PartyId → BTreeSet PartyId → Bool
  is_quorum_possible g without_ids = leb g.threshold (length (difference g.ids without_ids))

  -- The group behind `dyn PartyGroup`.
  unfoldable pub clone_box : ThresholdGroup PartyId → PartyGroup PartyId
  unfolding has_quorum is_quorum_possible
  clone_box g = record {
    ids = g.ids;
    has_quorum = has_quorum g;
    is_quorum_possible = is_quorum_possible g;
  }
