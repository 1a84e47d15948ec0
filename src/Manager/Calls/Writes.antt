-- ===== src/Manager/Calls/Writes.antt =====
-- manager.go: which writes to the graph reach the store.
use dagworker.Base.{
  ◌≡◌, refl, sym, ap, ◌∙◌, ◌⊎◌, inl, inr, false, Option, some, List, Text, Bool-cases, arith,
}
use dagworker.Errors.{Error, Result, ok, err, ◌>>◌, Result-cases}
use dagworker.Identifier.{validate_scope, validate_node_id}
use dagworker.Event.{Effect}
use dagworker.Manager.Registry.{Pace}
use dagworker.Manager.Calls.{
  Port, Manager, check, published, guarded, validate_policy, add_nodes, add_edges, remove_edges,
  remove_node, cancel, cancel_scope,
}
use dagworker.Manager.Calls.Guard.{
  Write, Accepted, AreValid, seq-split, seq-join, validate_write, validate_write-AreValid,
  AreValid-validate_write,
}

module _ {S : Type 0} (port : Port S) (pace : Pace) where
  -- The call of a write, and the operation of the store that it stands for.
  unfoldable pub call : Text → Write → Manager port pace → Manager port pace × Option Error
  call scope (Write.nodes specs) m = add_nodes port pace scope specs m
  call scope (Write.edges es) m = add_edges port pace scope es m
  call scope (Write.fewer_edges es) m = remove_edges port pace scope es m
  call scope (Write.removal id policy) m = remove_node port pace scope id policy m
  call scope (Write.ends ids) m = cancel port pace scope ids m
  call scope Write.all_ends m = cancel_scope port pace scope m

  unfoldable pub forward : Text → Write → S → S × List Effect × Option Error
  forward scope (Write.nodes specs) s = port.add_nodes scope specs s
  forward scope (Write.edges es) s = port.add_edges scope es s
  forward scope (Write.fewer_edges es) s = port.remove_edges scope es s
  forward scope (Write.removal id policy) s = port.remove_node scope id policy s
  forward scope (Write.ends ids) s = port.cancel scope ids s
  forward scope Write.all_ends s = port.cancel_scope scope s

  -- The Manager is open, and the scope and the arguments are well formed.
  pub record Passes (scope : Text) (w : Write) (m : Manager port pace) : Type 0 where
    pub is_open : m.closed ≡ false
    pub named : Accepted (validate_scope scope)
    pub arguments : AreValid w

  seq_assoc : (a b c : Result (Unit {0})) → (a >> (b >> c)) ≡ (a >> b >> c)
  seq_assoc (ok x) b c = refl
  seq_assoc (err e) b c = refl

  seq_end : (a : Result (Unit {0})) → a ≡ (a >> ok tt)
  seq_end (ok x) = refl
  seq_end (err e) = refl

  call-guarded :
      (scope : Text) (w : Write) (m : Manager port pace)
      → call scope w m
        ≡ guarded port pace
            (check port pace scope m >> validate_write w)
            (published port pace scope (forward scope w m.store) m)
            m
  unfolding call forward validate_write add_nodes add_edges remove_edges remove_node cancel
      cancel_scope
  call-guarded scope (Write.nodes specs) m = refl
  call-guarded scope (Write.edges es) m = refl
  call-guarded scope (Write.fewer_edges es) m = refl
  call-guarded scope (Write.removal id policy) m =
      ap
        (λ g.
          guarded port pace g
            (published port pace scope (port.remove_node scope id policy m.store) m) m)
        (sym (seq_assoc (check port pace scope m) (validate_node_id id) (validate_policy policy)))
  call-guarded scope (Write.ends ids) m = refl
  call-guarded scope Write.all_ends m =
      ap
        (λ g. guarded port pace g (published port pace scope (port.cancel_scope scope m.store) m) m)
        (seq_end (check port pace scope m))

  check-split :
      (scope : Text) (m : Manager port pace)
      → Accepted (check port pace scope m)
      → (m.closed ≡ false) × Accepted (validate_scope scope)
  unfolding check
  check-split scope m e = elim (Bool-cases m.closed) [
    | inl shut ↦ absurd (ground (arith, e, shut))
    | inr on ↦ (on, ground (arith, e, on))
  ]

  check-join :
      (scope : Text) (m : Manager port pace)
      → m.closed ≡ false
      → Accepted (validate_scope scope)
      → Accepted (check port pace scope m)
  unfolding check
  check-join scope m on e = ground (arith, on, e)

  guarded-err :
      (e : Error) (g : Result (Unit {0})) (c : Manager port pace × Option Error)
      (m : Manager port pace)
      → g ≡ err e
      → guarded port pace g c m ≡ (m, some e)
  unfolding guarded
  guarded-err e g c m same = ap (λ q. guarded port pace q c m) same

  guarded-ok :
      (g : Result (Unit {0})) (c : Manager port pace × Option Error) (m : Manager port pace)
      → Accepted g
      → guarded port pace g c m ≡ c
  unfolding guarded
  guarded-ok g c m same = ap (λ q. guarded port pace q c m) same

  -- A write to the graph through the Manager either finds it open with a valid scope and valid
  -- arguments, and is then the operation of the store with its effects published, or finds one of
  -- these false, and is then refused with an error and leaves the store and the subscriptions as
  -- they were.
  pub call-decides :
      (scope : Text) (w : Write) (m : Manager port pace)
      → (Passes scope w m
          × (call scope w m ≡ published port pace scope (forward scope w m.store) m))
        ⊎ ((e : Error) × ((call scope w m ≡ (m, some e)) × (Passes scope w m → ⊥)))
  call-decides scope w m =
      let g = check port pace scope m >> validate_write w in
      let c = published port pace scope (forward scope w m.store) m in
      elim (Result-cases g) [
        | inl (x, e) ↦
            let (checked, sound) = seq-split (check port pace scope m) (validate_write w) e in
            let (on, named) = check-split scope m checked in
            inl (
              record { is_open = on; named = named; arguments = validate_write-AreValid w sound },
              call-guarded scope w m ∙ guarded-ok g c m e,
            )
        | inr (x, e) ↦ inr (
          x,
          (
            call-guarded scope w m ∙ guarded-err x g c m e,
            λ p.
                let yes =
                  seq-join (check port pace scope m) (validate_write w)
                    (check-join scope m p.is_open p.named)
                    (AreValid-validate_write w p.arguments) in
                absurd (ground (arith, sym yes ∙ e)),
          ),
        )
      ]
