-- ===== src/Syntax/Promises.antt =====
-- src/syntax.c: which pointers the functions are given and give back, where one of them is read.
use crypti.Run.{Run, ok, die, fault, stuck}
use crypti.Base.{ℕ, zero, suc, Bool, true, false, Option, none, some, List, if◌then◌else◌, ◌==◌}
use crypti.Token.{Tok, ◌is◌, tok_comma, tok_rpar, tok_rbracket, tok_lbracket, tok_lpar}
use crypti.Lexer.{Attribute, LexItem}
use crypti.Syntax.Tree.{
  AstNode, AstNodes, null, ast_node, no_nodes, one_more, add_node, ast_node_stub_new,
}
use crypti.Syntax.Stream.{
  Parser, Parse, pure, ◌>>=◌, ◌>>◌, after, on, matches, error, failed, unless_null, unless_errors,
  current_tok, nerrors_of, prev_attribute, tok_next,
}
use crypti.Syntax.Goals.{
  Goal, Calls, global_expr_goal, import_rest, statement_goal, block_goal, expr_goal,
  trenary_op_goal, level, level_rest, term_goal, power_goal, concatenation_goal, factor_goal,
  unary_not_goal, unary_plus_goal, concatenation_rest, call_rest, access_rest, array_rest, seq_rest,
  assign_goal, at_logic_or,
}
use crypti.Syntax.Operands.{function_call_args, array_access_indices, identifier}
use crypti.Syntax.Assignments.{get_rval, seq_more, get_seq_rest, seq_nodes}
use crypti.Syntax.Grammar.{step, parse}

abbrev pub IsReal : {N : Type 0} → AstNode N → Type 0
IsReal null = ⊥
IsReal (ast_node _ _) = Unit

abbrev pub AllReal : {N : Type 0} → AstNodes N → Type 0
AllReal no_nodes = Unit
AllReal (one_more node rest) = IsReal node × AllReal rest

abbrev pub AreNodes : {N : Type 0} → Option (AstNodes N) → Type 0
AreNodes none = ⊥
AreNodes (some nodes) = AllReal nodes

-- A null pointer, or a sequence of nodes that are none.
abbrev pub IsSequence : {N : Type 0} → AstNode N → Type 0
IsSequence null = Unit
IsSequence (ast_node sh child) = AreNodes (seq_nodes (ast_node sh child))

-- The goals inside of a statement: not a whole program, which begins anew. `assign` and `get_seq`
-- are given no null pointer.
abbrev pub Inner : {N : Type 0} → Goal N → Type 0
Inner global_expr_goal = ⊥
Inner (import_rest _ _) = ⊥
Inner (assign_goal first _) = IsReal first
Inner (seq_rest nodes) = AllReal nodes
Inner _ = Unit

-- What the functions give back.
abbrev pub Promise : {N : Type 0} → Goal N → AstNode N → Type 0
Promise (call_rest _ _) node = IsReal node
Promise (access_rest _ _) node = IsReal node
Promise (seq_rest _) node = IsSequence node
Promise _ node = Unit

-- The value of what returns.
abbrev pub Value : {N A : Type 0} → Run (A × Parser N) → (A → Type 0) → Type 0
Value (ok (a, s)) P = P a
Value die P = Unit
Value fault P = Unit
Value stuck P = Unit

unfoldable pub Gives : (N : Type 0) {A : Type 0} → Parse N A → (A → Type 0) → Type 0
Gives N m P = (s : Parser N) → Value (m s) P

pub add_node-AllReal :
    {N : Type 0} (nodes : AstNodes N) (node : AstNode N)
    → AllReal nodes
    → IsReal node
    → AllReal (add_node nodes node)
unfolding add_node
add_node-AllReal no_nodes node h r = (r, tt)
add_node-AllReal (one_more first rest) node h r = (h.0, add_node-AllReal rest node h.1 r)

module _ (N : Type 0) {A : Type 0} (P : A → Type 0) where
  pub pure-Gives : (a : A) → P a → Gives N (pure a) P
  unfolding Gives
  pure-Gives a h s = h

  after-Value :
      {B : Type 0} (r : Run (B × Parser N)) (f : B → Parse N A)
      → ((b : B) → Gives N (f b) P)
      → Value (after r f) P
  unfolding Gives
  after-Value (ok (b, s)) f h = h b s
  after-Value die f h = tt
  after-Value fault f h = tt
  after-Value stuck f h = tt

  pub bind-Gives :
      {B : Type 0} (m : Parse N B) (f : B → Parse N A)
      → ((b : B) → Gives N (f b) P)
      → Gives N (m >>= f) P
  unfolding Gives
  bind-Gives m f h s = after-Value (m s) f h

  pub if-Gives :
      (b : Bool) (m k : Parse N A) → Gives N m P → Gives N k P → Gives N (if b then m else k) P
  if-Gives true m k h h' = h
  if-Gives false m k h h' = h'

  pub on-Gives : (t : Tok) (m k : Parse N A) → Gives N m P → Gives N k P → Gives N (on t m k) P
  on-Gives t m k h h' = bind-Gives (matches t) _ λ b. if-Gives b m k h h'

  pub errors-Gives : (m k : Parse N A) → Gives N m P → Gives N k P → Gives N (unless_errors m k) P
  errors-Gives m k h h' = bind-Gives nerrors_of _ λ n. if-Gives (n == 0) k m h' h

  pub null-Gives :
      (node : AstNode N) (m k : Parse N A)
      → Gives N m P
      → Gives N k P
      → Gives N (unless_null node m k) P
  null-Gives null m k h h' = h
  null-Gives (ast_node _ _) m k h h' = h'

pub any-Gives : (N : Type 0) (m : Parse N (AstNode N)) → Gives N m λ _. Unit
unfolding Gives
any-Gives N m s = any (m s)
  where
    any : (r : Run (AstNode N × Parser N)) → Value r λ _. Unit
    any (ok (a, s)) = tt
    any die = tt
    any fault = tt
    any stuck = tt

module _ {N : Type 0} (call : Calls N)
    (kept : (g : Goal N) → Inner g → Gives N (call g) (Promise g)) where
  failed-Gives : Gives N failed IsReal
  failed-Gives = bind-Gives N IsReal error _ λ _. pure-Gives N IsReal ast_node_stub_new tt

  function_call_args-Gives :
      (id : Attribute N) (args : AstNodes N) → Gives N (function_call_args call id args) IsReal
  function_call_args-Gives id args = on-Gives N IsReal tok_rpar _ _ (pure-Gives N IsReal _ tt) (
      bind-Gives N IsReal (call (level at_logic_or)) _ λ node.
        null-Gives N IsReal node _ _ failed-Gives (
          on-Gives N IsReal tok_comma _ _ (kept (call_rest id (add_node args node)) tt) (
            bind-Gives N IsReal current_tok _ λ t.
              if-Gives N IsReal (t is tok_rpar) _ _ (kept (call_rest id (add_node args node)) tt)
                failed-Gives)))

  array_access_indices-Gives :
      (id : Attribute N) (ind : AstNodes N) → Gives N (array_access_indices call id ind) IsReal
  array_access_indices-Gives id ind = bind-Gives N IsReal (call (level at_logic_or)) _ λ item.
      null-Gives N IsReal item _ _ failed-Gives (
        on-Gives N IsReal tok_comma _ _ (kept (access_rest id (add_node ind item)) tt)
          (on-Gives N IsReal tok_rbracket _ _ (pure-Gives N IsReal _ tt) failed-Gives))

  nothing-Gives : Gives N {A = AstNode N} (do error; pure null) IsSequence
  nothing-Gives = bind-Gives N IsSequence error _ λ _. pure-Gives N IsSequence null tt

  seq_more-Gives :
      (nodes : AstNodes N) (node : AstNode N)
      → AllReal nodes
      → Gives N (seq_more call nodes node) IsSequence
  seq_more-Gives nodes null h = nothing-Gives
  seq_more-Gives nodes (ast_node sh child) h = errors-Gives N IsSequence _ _ nothing-Gives (
      kept (seq_rest (add_node nodes (ast_node sh child)))
        (add_node-AllReal nodes (ast_node sh child) h tt))

  get_seq_rest-Gives :
      (nodes : AstNodes N) → AllReal nodes → Gives N (get_seq_rest call nodes) IsSequence
  get_seq_rest-Gives nodes h =
      on-Gives N IsSequence tok_comma _ _
        (bind-Gives N IsSequence (get_rval call) _ λ node. seq_more-Gives nodes node h)
        (pure-Gives N IsSequence _ h)

  pub identifier-Gives : Gives N (identifier call) IsReal
  identifier-Gives = bind-Gives N IsReal current_tok _ λ t.
      if-Gives N IsReal (t is tok_lbracket) _ _
        (bind-Gives N IsReal prev_attribute _
          λ prev. bind-Gives N IsReal tok_next _ λ _. kept (access_rest prev.1 no_nodes) tt)
        (if-Gives N IsReal (t is tok_lpar) _ _
          (bind-Gives N IsReal prev_attribute _ λ prev.
            on-Gives N IsReal tok_lpar _ _ (kept (call_rest prev.1 no_nodes) tt) failed-Gives)
          (bind-Gives N IsReal prev_attribute _ λ prev. pure-Gives N IsReal _ tt))

  step-Gives :
      (fopen : Attribute N → Option (List (LexItem N))) (g : Goal N)
      → Inner g
      → Gives N (step fopen call g) (Promise g)
  step-Gives fopen global_expr_goal h = absurd h
  step-Gives fopen (import_rest _ _) h = absurd h
  step-Gives fopen statement_goal h = any-Gives N _
  step-Gives fopen block_goal h = any-Gives N _
  step-Gives fopen expr_goal h = any-Gives N _
  step-Gives fopen trenary_op_goal h = any-Gives N _
  step-Gives fopen (level lv) h = any-Gives N _
  step-Gives fopen (level_rest lv left) h = any-Gives N _
  step-Gives fopen term_goal h = any-Gives N _
  step-Gives fopen power_goal h = any-Gives N _
  step-Gives fopen concatenation_goal h = any-Gives N _
  step-Gives fopen factor_goal h = any-Gives N _
  step-Gives fopen (unary_not_goal flag) h = any-Gives N _
  step-Gives fopen (unary_plus_goal flag) h = any-Gives N _
  step-Gives fopen (concatenation_rest left) h = any-Gives N _
  step-Gives fopen (call_rest id args) h = function_call_args-Gives id args
  step-Gives fopen (access_rest id ind) h = array_access_indices-Gives id ind
  step-Gives fopen (array_rest arr) h = any-Gives N _
  step-Gives fopen (seq_rest nodes) h = get_seq_rest-Gives nodes h
  step-Gives fopen (assign_goal first nesting) h = any-Gives N _

-- Each function gives back what it promises.
pub parse-Gives :
    {N : Type 0} (fopen : Attribute N → Option (List (LexItem N))) (n : ℕ) (g : Goal N)
    → Inner g
    → Gives N (parse fopen n g) (Promise g)
unfolding Gives parse
parse-Gives fopen zero g h s = tt
parse-Gives fopen (suc n) g h s = step-Gives (parse fopen n) (parse-Gives fopen n) fopen g h s
