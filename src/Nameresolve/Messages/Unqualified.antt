-- ===== src/Nameresolve/Messages/Unqualified.antt =====
-- The message of an unresolved unqualified table is recognised, and nothing else is.
use rewriter_go.Prelude.{
  ◌+◌, ◌-◌, ◌≡◌, sym, ◌∙◌, ap, ◌↔◌, true, ◌++◌, append_assoc, arith, length, take, drop,
  length-append, leb,
}
use rewriter_go.Prelude.Text.{
  Bytes, eq_of_test, eq_refl, has_prefix, has_suffix, has_prefix-append, has_prefix-split,
  take-drop, drop-append_length, drop-drop, length-drop,
}
use rewriter_go.Nameresolve.Messages.{
  unresolved_unqualified_prefix, unresolved_unqualified_suffix,
  unresolved_unqualified_table_message, is_unresolved_unqualified_table_message,
}

has_suffix-append : (s q : Bytes) → has_suffix (s ++ q) q ≡ true
unfolding has_suffix
has_suffix-append s q =
    let n : length (s ++ q) - length q ≡ length s = omega (arith, length-append {0} s q) in
    ground (arith, length-append s q, n, drop-append_length s q, eq_refl q)

-- A text with both marks, long enough to hold them apart, is a middle between them.
between :
    (p q s : Bytes)
    → leb (length p + length q) (length s) ≡ true
    → has_prefix s p ≡ true
    → has_suffix s q ≡ true
    → (t : Bytes) × (s ≡ p ++ (t ++ q))
unfolding has_suffix
between p q s long front back =
    let rest = drop (length p) s in
    let k = length rest - length q in
    let e : drop (length s - length q) s ≡ q = eq_of_test _ _ (ground arith) in
    let m : length s - length q ≡ length p + k = ground (arith, length-drop (length p) s) in
    let d : drop k rest ≡ q = drop-drop k (length p) s ∙ ap (λ n. drop n s) (sym m) ∙ e in
    let r : rest ≡ take k rest ++ q = sym (take-drop k rest) ∙ ap (λ u. take k rest ++ u) d in
    (take k rest, has_prefix-split s p front ∙ ap (λ u. p ++ u) r)

-- The test accepts exactly the messages that `UnresolvedUnqualifiedTableMessage` builds, for whatever
-- table name.
pub is_unresolved_unqualified_table_message_iff :
    (msg : Bytes)
    → (is_unresolved_unqualified_table_message msg ≡ true)
      ↔ ((table : Bytes) × (msg ≡ unresolved_unqualified_table_message table))
unfolding is_unresolved_unqualified_table_message unresolved_unqualified_table_message
is_unresolved_unqualified_table_message_iff msg =
    let p = unresolved_unqualified_prefix in
    let q = unresolved_unqualified_suffix in
    (
      λ h. between p q msg (ground arith) (ground arith) (ground arith),
      λ (table, e). rw e (
          ground (
            arith,
            length-append p (table ++ q),
            length-append table q,
            has_prefix-append p (table ++ q),
            has_suffix-append (p ++ table) q,
            append_assoc p table q,
          )),
    )
