-- ===== src/Api/Act.antt =====
-- A handler's run: it changes the node, and returns a response or an error. What the node did before
-- an error stays done.
use ldk_server.Prelude.{◌≡◌, refl, Result, ok, err}
use ldk_server.Text.{Text}
use ldk_server.Api.Error.{LdkServerError, NodeError, from_node_error}

abbrev pub Act : Type 0 → Type 0 → Type 0
Act S A = S → Result A LdkServerError × S

module _ {S A : Type 0} where
  abbrev pub pure : A → Act S A
  pure a s = (ok a, s)

  -- `?` on a result of this error type
  abbrev pub lift : Result A LdkServerError → Act S A
  lift r s = (r, s)

-- the error of a call of the node, converted by `From<NodeError>`, or by the handler itself
abbrev convert :
    {A : Type 0} → (NodeError → LdkServerError) → Result A NodeError → Result A LdkServerError
convert f (ok a) = ok a
convert f (err e) = err (f e)

module _ {S A : Type 0} where
  -- a call of the node, with `map_err` and `?`
  abbrev pub node_call_or : (NodeError → LdkServerError) → (S → Result A NodeError × S) → Act S A
  node_call_or f op s = let (r, s') = op s in (convert f r, s')

  -- a call of the node, with `?`
  abbrev pub node_call : (NodeError → Text) → (S → Result A NodeError × S) → Act S A
  node_call to_string op = node_call_or (from_node_error to_string) op

module _ {S A B : Type 0} where
  abbrev continue : Result A LdkServerError × S → (A → Act S B) → Result B LdkServerError × S
  continue (ok a, s) f = f a s
  continue (err e, s) f = (err e, s)

  infixl 5 ◌>>=◌ ◌>>◌
  abbrev pub ◌>>=◌ : Act S A → (A → Act S B) → Act S B
  ◌>>=◌ m f s = continue (m s) f

  abbrev pub ◌>>◌ : Act S A → Act S B → Act S B
  ◌>>◌ m k = m >>= λ _. k

convert-eq_ok :
    {S A : Type 0} (f : NodeError → LdkServerError) (o : Result A NodeError × S) {s' : S} {a : A}
    → ◌≡◌ {A = Result A LdkServerError × S} (convert f o.0, o.1) (ok a, s')
    → ◌≡◌ {A = Result A NodeError × S} o (ok a, s')
convert-eq_ok f (ok a, s) h = cc
convert-eq_ok f (err e, s) h = cc

-- A call that succeeds has succeeded in the node.
pub node_call_or-eq_ok :
    {S A : Type 0} (f : NodeError → LdkServerError) (op : S → Result A NodeError × S) {s s' : S}
    {a : A}
    → node_call_or f op s ≡ (ok a, s')
    → op s ≡ (ok a, s')
node_call_or-eq_ok f op {s} h = convert-eq_ok f (op s) h

-- To prove a property of a chain from its first part and the rest.
continue-Holds :
    {S A B : Type 0} (P : Result B LdkServerError × S → Type 0) (o : Result A LdkServerError × S)
    (f : A → Act S B)
    → ((a : A) (s : S) → o ≡ (ok a, s) → P (f a s))
    → ((e : LdkServerError) (s : S) → o ≡ (err e, s) → P (err e, s))
    → P (continue o f)
continue-Holds P (ok a, s) f k l = k a s refl
continue-Holds P (err e, s) f k l = l e s refl

pub >>=-Holds :
    {S A B : Type 0} (P : Result B LdkServerError × S → Type 0) (m : Act S A) (f : A → Act S B)
    (s : S)
    → ((a : A) (s' : S) → m s ≡ (ok a, s') → P (f a s'))
    → ((e : LdkServerError) (s' : S) → m s ≡ (err e, s') → P (err e, s'))
    → P ((m >>= f) s)
>>=-Holds P m f s k l = continue-Holds P (m s) f k l
