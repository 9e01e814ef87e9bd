-- ===== src/VintSender/Tests.antt =====
-- A permission of vint_sender.c: the VCPU 2 may send the interrupt 40 to the VM 1.
use t_visor.Prelude.{◌≡◌, refl, false, some, [], arith}
use t_visor.Rbtree.{Heap}
use t_visor.Rbtree.Shape.{Tree, leaf, node, Is}
use t_visor.VintSender.{Outcome, vint_sender_interface, Answers, vint_sender_interface-Answers}

abbrev table : Heap
table = record {
  key = λ p. 65576;
  val = λ p. 4;
  par = λ p. 0;
  left = λ p. 0;
  right = λ p. 0;
  red = λ p. false;
  head = λ t. 1;
  tree_count = 1;
  pool_count = 1;
  ls = [];
  aborts = 0;
}

abbrev table_tree : Tree
table_tree = node leaf 1 false 65576 4 leaf

table-Is : Is table table_tree
table-Is = ground arith

vint_sender_interface-Answers_example :
    (out : Outcome) × (vint_sender_interface 2 0 2 1 40 table ≡ some out)
    × Answers table_tree 2 1 40 out
vint_sender_interface-Answers_example =
    vint_sender_interface-Answers table table_tree 0 2 2 1 40 refl table-Is (tt, tt, tt, tt)
      (omega arith) (omega arith)
