-- ===== src/Entities/Party/Quorums.antt =====
-- When a threshold group of ayatori/src/entities/party.rs has a quorum, and when it can still reach
-- one.
use ayatori.Prelude.{◌≤◌, ◌≡◌, ◌↔◌, true, arith, length}
use ayatori.Collections.Order.{Ord}
use ayatori.Collections.BTreeSet.{BTreeSet, intersection, difference, IsDistinct}
use ayatori.Collections.BTreeSet.Counting.{
  Includes, Avoids, contains-intersection, contains-difference, intersection-IsDistinct,
  difference-IsDistinct, length-le_of_Includes,
}
use ayatori.Entities.Party.{ThresholdGroup, has_quorum, is_quorum_possible}

module _ {PartyId : Type 0} ⦃o : Ord PartyId⦄ (g : ThresholdGroup PartyId) where
  -- Some set of parties, none of them banned, is a quorum.
  abbrev pub HasQuorumWithout : BTreeSet PartyId → Type 0
  HasQuorumWithout without =
      (ids : BTreeSet PartyId) × IsDistinct ids × Avoids ids without × (has_quorum g ids ≡ true)

  members_le :
      (s t : BTreeSet PartyId)
      → IsDistinct s
      → Includes s t
      → length (intersection s g.ids) ≤ length (intersection t g.ids)
  members_le s t d i =
      length-le_of_Includes (intersection s g.ids) (intersection t g.ids)
        (intersection-IsDistinct s g.ids d)
        (λ a m.
          ground (arith, contains-intersection s g.ids a, contains-intersection t g.ids a, i a))

  -- Parties that have a quorum of a threshold group still have it when others join them.
  pub has_quorum_mono :
      (s t : BTreeSet PartyId)
      → IsDistinct s
      → Includes s t
      → has_quorum g s ≡ true
      → has_quorum g t ≡ true
  unfolding has_quorum
  has_quorum_mono s t d i h = ground (arith, members_le s t d i)

  quorum_of_possible :
      (without : BTreeSet PartyId)
      → IsDistinct g.ids
      → is_quorum_possible g without ≡ true
      → HasQuorumWithout without
  unfolding has_quorum is_quorum_possible
  quorum_of_possible without d h = (
    rest,
    difference-IsDistinct g.ids without d,
    λ a m. ground (arith, contains-difference g.ids without a),
    ground (
      arith,
      length-le_of_Includes rest (intersection rest g.ids) (difference-IsDistinct g.ids without d)
          (λ a m.
            ground
              (arith, contains-intersection rest g.ids a, contains-difference g.ids without a)),
    ),
  )
    where
      rest : BTreeSet PartyId
      rest = difference g.ids without

  pub possible_of_quorum :
      (without ids : BTreeSet PartyId)
      → IsDistinct ids
      → Avoids ids without
      → has_quorum g ids ≡ true
      → is_quorum_possible g without ≡ true
  unfolding has_quorum is_quorum_possible
  possible_of_quorum without ids d avoids h = ground (
    arith,
    length-le_of_Includes (intersection ids g.ids) (difference g.ids without)
        (intersection-IsDistinct ids g.ids d)
        (λ a m. ground (
          arith,
          contains-intersection ids g.ids a,
          contains-difference g.ids without a,
          avoids a,
        )),
  )

  -- `is_quorum_possible` returns `true` exactly when some set of parties that leaves out the banned
  -- ones has a quorum, for a threshold group whose identifiers form a set.
  pub is_quorum_possible_iff :
      (without : BTreeSet PartyId)
      → IsDistinct g.ids
      → (is_quorum_possible g without ≡ true) ↔ HasQuorumWithout without
  is_quorum_possible_iff without d =
      (quorum_of_possible without d, λ q. possible_of_quorum without q.0 q.1 q.2 q.3)
