-- ===== src/Flat/Ruleset/Build/Total.antt =====
-- That `Ruleset::new` of ayatori/src/flat_representation/ruleset.rs succeeds on the graphs that the
-- constructors make.
use ayatori.Prelude.{Option, none, some, ◌≡◌, ◌⊎◌, inl, inr, refl, sym, subst, arith, All}
use ayatori.Collections.Order.{Ord, nat_ord}
use ayatori.Collections.BTreeSet.{BTreeSet}
use ayatori.Collections.BTreeMap.{BTreeMap, get, insert, get-insert}
use ayatori.Entities.Tags.{FullName, full_name_ord, MappingTag}
use ayatori.Entities.Errors.{Result, ok, ◌>>=◌, RuntimeError}
use ayatori.Entities.Params.{SessionParameters}
use ayatori.Graph.AnyNode.{
  AnyNode, compute_scalar, collect, compute_mapping, serialize_and_sign_bc, serialize_and_sign_dm,
  deserialize_and_check, send_bc, send_dm, send_all, receive, scalar_argument, merge_scalars,
  store_in, all_args,
}
use ayatori.Graph.AnyNode.Unions.Tags.{
  scalar_arg_scalar_tag, broadcast_arg_scalar_tag, bc_signature_signed_tag, dm_signature_signed_tag,
  reception_receive_tag, scalar_args-total, dependency_tags-total, collect_arg_tag, sent_dm_arg_tag,
}
use ayatori.Graph.AnyNode.Replace.Typing.{IsWellTyped}
use ayatori.Flat.Actions.{OnError}
use ayatori.Flat.Ruleset.Groups.{PropagatedGroups}
use ayatori.Flat.Ruleset.Groups.Known.{IsKnownNode}
use ayatori.Flat.Ruleset.Build.{add_rule}
use ayatori.Flat.Ruleset.Building.{
  Building, senders_of, with_scalar_rule, with_collect_rule, with_mapping_rule, with_send_bc_rule,
  with_send_dm_rule,
}

-- The senders of the messages of this name are known.
abbrev pub IsExpected :
    {Verifier : Type 0} → BTreeMap FullName (BTreeSet Verifier) → FullName → Type 0
IsExpected {Verifier = Verifier} messages name =
    (senders : BTreeSet Verifier) × (get messages name ≡ some senders)

after_ok :
    {E A B : Type 0} (Q : Result E B → Type 0) {r : Result E A} {a : A} (f : A → Result E B)
    → r ≡ ok a
    → Q (f a)
    → Q (r >>= f)
after_ok Q f e q = subst (λ z. Q (z >>= f)) (sym e) q

IsExpected-after :
    {Verifier : Type 0} (messages : BTreeMap FullName (BTreeSet Verifier)) (name : FullName)
    (ids : BTreeSet Verifier) (x : FullName)
    → (x ≡ name) ⊎ IsExpected messages x
    → IsExpected (insert messages name ids) x
IsExpected-after messages name ids x h = elim (full_name_ord.dec x name) [
  | yes p ↦ (ids, ground (arith, get-insert messages name x ids, p))
  | no p ↦ elim h [
    | inl e ↦ absurd (p e)
    | inr e ↦ (e.0, ground (arith, get-insert messages name x ids, p, e.1))
  ]
]

senders-total :
    {Verifier : Type 0} (messages : BTreeMap FullName (BTreeSet Verifier)) (name : FullName)
    → IsExpected messages name
    → (ids : BTreeSet Verifier) × (senders_of messages name ≡ ok ids)
unfolding senders_of
senders-total messages name e = (e.0, ground (arith, e.1))

module _ {P : SessionParameters} where
  unfoldable pub message_received : AnyNode P → Option FullName
  message_received (receive i tag message_name) = some message_name
  message_received _ = none

  -- A node that deserializes messages reads the reception of the messages of its own name.
  unfoldable pub HasItsMessages : AnyNode P → Type 0
  HasItsMessages (deserialize_and_check i tag function reads adapter name) =
      message_received reads ≡ some name
  HasItsMessages _ = Unit

  abbrev pub IsServed : BTreeMap FullName (BTreeSet P.Verifier) → AnyNode P → Type 0
  IsServed messages n =
      (name : FullName) → message_received n ≡ some name → IsExpected messages name

  -- What the loop does with one node.
  abbrev Ruled : Building P → AnyNode P → Result RuntimeError (Building P) → Type 0
  Ruled b n r =
      (next : Building P) × (r ≡ ok next)
      × ((name : FullName)
          → IsExpected (b.expected_messages) name
          → IsExpected (next.expected_messages) name)
      × IsServed (next.expected_messages) n

module _ {P : SessionParameters} ⦃o : Ord P.Verifier⦄ where
  pub add_rule-total :
      (groups : PropagatedGroups P.Verifier) (on_error : OnError) (b : Building P) (n : AnyNode P)
      → IsWellTyped n
      → HasItsMessages n
      → IsKnownNode groups n
      → All (IsServed (b.expected_messages)) (all_args n)
      → Ruled b n (add_rule groups on_error b n)
  unfolding add_rule all_args store_in IsWellTyped HasItsMessages message_received with_scalar_rule
      with_collect_rule with_mapping_rule with_send_bc_rule with_send_dm_rule senders_of
  add_rule-total groups on_error b (scalar_argument i tag name) w m k s =
      (_, refl, λ x e. e, λ x e. absurd (ground (arith, e)))
  add_rule-total groups on_error b (compute_scalar i tag kind args nodes) w m k s =
      let p0 = scalar_args-total args w.0 in
      let p1 = dependency_tags-total nodes w.1 in
      after_ok (Ruled b (compute_scalar i tag kind args nodes)) _ p0.1 (
        after_ok (Ruled b (compute_scalar i tag kind args nodes)) _ p1.1
          (_, refl, λ x e. e, λ x e. absurd (ground (arith, e))))
  add_rule-total groups on_error b (compute_mapping i tag args kind nodes) w m k s =
      let p0 = dependency_tags-total nodes w.2 in
      let p1 = k (MappingTag.computed tag) refl in
      after_ok (Ruled b (compute_mapping i tag args kind nodes)) _ p0.1 (
        after_ok (Ruled b (compute_mapping i tag args kind nodes)) _ p1.1
          (_, refl, λ x e. e, λ x e. absurd (ground (arith, e))))
  add_rule-total groups on_error b (serialize_and_sign_bc i tag function signs adapter name) w m k
        s =
      let p0 = broadcast_arg_scalar_tag signs w in
      after_ok (Ruled b (serialize_and_sign_bc i tag function signs adapter name)) _ p0.1
        (_, refl, λ x e. e, λ x e. absurd (ground (arith, e)))
  add_rule-total groups on_error b (serialize_and_sign_dm i tag function signs adapter name) w m k
        s =
      let p0 = k (MappingTag.local_signed tag) refl in
      after_ok (Ruled b (serialize_and_sign_dm i tag function signs adapter name)) _ p0.1
        (_, refl, λ x e. e, λ x e. absurd (ground (arith, e)))
  add_rule-total groups on_error b (deserialize_and_check i tag function reads adapter name) w m k
        s =
      let p0 = reception_receive_tag reads w in
      let p1 = k (MappingTag.received tag) refl in
      let e = s.0 name m in
      let p2 = senders-total (b.expected_messages) name e in
      after_ok (Ruled b (deserialize_and_check i tag function reads adapter name)) _ p0.1 (
        after_ok (Ruled b (deserialize_and_check i tag function reads adapter name)) _ p1.1 (
          after_ok (Ruled b (deserialize_and_check i tag function reads adapter name)) _ p2.1
            (_, refl, λ x e. e, λ x e. absurd (ground (arith, e)))))
  add_rule-total groups on_error b (send_bc i tag sends destinations nodes) w m k s =
      let p0 = bc_signature_signed_tag sends w.0 in
      let p1 = dependency_tags-total nodes w.1 in
      after_ok (Ruled b (send_bc i tag sends destinations nodes)) _ p0.1 (
        after_ok (Ruled b (send_bc i tag sends destinations nodes)) _ p1.1
          (_, refl, λ x e. e, λ x e. absurd (ground (arith, e))))
  add_rule-total groups on_error b (send_dm i tag sends nodes) w m k s =
      let p0 = dm_signature_signed_tag sends w.0 in
      let p1 = dependency_tags-total nodes w.1 in
      let p2 = k (MappingTag.sent tag) refl in
      after_ok (Ruled b (send_dm i tag sends nodes)) _ p0.1 (
        after_ok (Ruled b (send_dm i tag sends nodes)) _ p1.1 (
          after_ok (Ruled b (send_dm i tag sends nodes)) _ p2.1
            (_, refl, λ x e. e, λ x e. absurd (ground (arith, e)))))
  add_rule-total groups on_error b (collect i tag values group nodes) w m k s =
      let p0 = collect_arg_tag values w.0 in
      let p1 = dependency_tags-total nodes w.1 in
      after_ok (Ruled b (collect i tag values group nodes)) _ p0.1 (
        after_ok (Ruled b (collect i tag values group nodes)) _ p1.1
          (_, refl, λ x e. e, λ x e. absurd (ground (arith, e))))
  add_rule-total groups on_error b (send_all i tag values destinations) w m k s =
      let p0 = sent_dm_arg_tag values w in
      after_ok (Ruled b (send_all i tag values destinations)) _ p0.1
        (_, refl, λ x e. e, λ x e. absurd (ground (arith, e)))
  add_rule-total groups on_error b (merge_scalars i tag left right) w m k s =
      let p0 = scalar_arg_scalar_tag left w.0 in
      let p1 = scalar_arg_scalar_tag right w.1 in
      after_ok (Ruled b (merge_scalars i tag left right)) _ p0.1 (
        after_ok (Ruled b (merge_scalars i tag left right)) _ p1.1
          (_, refl, λ x e. e, λ x e. absurd (ground (arith, e))))
  add_rule-total groups on_error b (receive i tag message_name) w m k s =
      let p = k (MappingTag.remote_signed tag) refl in
      after_ok (Ruled b (receive i tag message_name)) _ p.1 (
        _,
        refl,
        λ x e. IsExpected-after (b.expected_messages) message_name p.0 x (inr e),
        λ x e. IsExpected-after (b.expected_messages) message_name p.0 x (inl (ground (arith, e))),
      )
