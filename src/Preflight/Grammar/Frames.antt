-- ===== src/Preflight/Grammar/Frames.antt =====
-- What the open frames of the parser of src/nplg_mcp/json_preflight.py still ask for, as pieces of grammar.
use nplg_dspace_mcp.Prelude.{
  ℕ, ◌≡◌, Bool, true, false, ◌||◌, some, List, [], ◌∷◌, ◌++◌, arith, length, leb, subst, sym,
}
use nplg_dspace_mcp.Preflight.Limits.{Limits}
use nplg_dspace_mcp.Preflight.Scan.{next_is, after}
use nplg_dspace_mcp.Preflight.Parser.{
  ContainerKind, array, object, ValueKind, Frame, FrameState, Parser, push_container, finish_scalar,
  finish_container, strip_prefix, is_empty,
}
use nplg_dspace_mcp.Preflight.Grammar.{
  Spaces, Text, Value, empty_array, array_of, empty_object, object_of, Member, member, ArrayTail,
  array_next, ObjectTail, object_next, Document, document,
}
use nplg_dspace_mcp.Preflight.Grammar.Lexical.{Gives, Gives-if, seen}

-- The inside of an array or an object from an element or a member on, where an end is allowed or not.
pub data ArrayBody (end : Bool) : List ℕ → List ℕ → Type 0 where
  array_body_end : {r : List ℕ} → end ≡ true → ArrayBody end (0x5d ∷ r) r
  array_body_of : {a b c d : List ℕ} → Value a b → Spaces b c → ArrayTail c d → ArrayBody end a d

pub data ObjectBody (end : Bool) : List ℕ → List ℕ → Type 0 where
  object_body_end : {r : List ℕ} → end ≡ true → ObjectBody end (0x7d ∷ r) r
  object_body_of :
      {a b c d : List ℕ} → Member a b → Spaces b c → ObjectTail c d → ObjectBody end a d

pub data ObjectValue : List ℕ → List ℕ → Type 0 where
  object_value_of : {a b c d : List ℕ} → Value a b → Spaces b c → ObjectTail c d → ObjectValue a d

-- What a frame asks for, from its state on and after any space.
abbrev pub Asks : FrameState → Bool → List ℕ → List ℕ → Type 0
Asks FrameState.array_value_or_end end = ArrayBody end
Asks FrameState.array_after_value end = ArrayTail
Asks FrameState.object_key_or_end end = ObjectBody end
Asks FrameState.object_value end = ObjectValue
Asks FrameState.object_after_value end = ObjectTail

-- What the frames ask for, the innermost first.
pub data Closes : List Frame → List ℕ → List ℕ → Type 0 where
  closed : {r : List ℕ} → Closes [] r r
  closes :
      (f : Frame) {fs : List Frame} {a b c d : List ℕ}
      → Spaces a b
      → Asks f.state f.allow_end b c
      → Closes fs c d
      → Closes (f ∷ fs) a d

-- What a state asks for: nothing, the root value, or what its frames do.
pub data Todo : Bool → List Frame → List ℕ → List ℕ → Type 0 where
  nothing : {frames : List Frame} {r : List ℕ} → Todo true frames r r
  root : {a b c : List ℕ} → Spaces a b → Value b c → Todo false [] a c
  frames :
      {f : Frame} {fs : List Frame} {a b : List ℕ} → Closes (f ∷ fs) a b → Todo false (f ∷ fs) a b

abbrev pub TodoOf : Parser → List ℕ → Type 0
TodoOf p = Todo p.root_complete p.frames p.rest

-- After a value or a closing bracket.
Todo-Closes :
    (complete : Bool) (fs : List Frame) {r out : List ℕ}
    → complete ≡ false
    → Todo (complete || is_empty fs) fs r out
    → Closes fs r out
Todo-Closes true fs e t = cc
Todo-Closes false [] e nothing = closed
Todo-Closes false (f ∷ fs) e (frames c) = c

-- A piece of grammar, and then what the frames ask for.
abbrev pub Before : (List ℕ → List ℕ → Type 0) → List Frame → List ℕ → List ℕ → Type 0
Before R fs a out = (m : List ℕ) × R a m × Closes fs m out

-- What a step owes, given what the state after it asks for.
abbrev pub Owes : (List ℕ → List ℕ → Type 0) → List Frame → List ℕ → Parser → Type 0
Owes R fs a p = (out : List ℕ) → TodoOf p out → Before R fs a out

abbrev pub OwesValue : List Frame → List ℕ → ValueKind × Parser → Type 0
OwesValue fs a (_, p) = Owes Value fs a p

strip_prefix-eq :
    (word rest left : List ℕ) → strip_prefix word rest ≡ some left → word ++ left ≡ rest
unfolding strip_prefix
strip_prefix-eq [] rest left e = ground (arith, e)
strip_prefix-eq (b ∷ word) [] left e = cc
strip_prefix-eq (b ∷ word) (c ∷ rest) left e = ground (arith, e, strip_prefix-eq word rest left)

pub scalar-Owes :
    (p : Parser) (left : List ℕ)
    → p.root_complete ≡ false
    → Value p.rest left
    → Owes Value p.frames p.rest (finish_scalar left p)
unfolding finish_scalar
scalar-Owes p left going v out t = (left, v, Todo-Closes p.root_complete p.frames going t)

pub word-Owes :
    (p : Parser) (word left : List ℕ)
    → p.root_complete ≡ false
    → Value (word ++ left) left
    → strip_prefix word p.rest ≡ some left
    → Owes Value p.frames p.rest (finish_scalar left p)
word-Owes p word left going v e =
    scalar-Owes p left going (subst (λ r. Value r left) (strip_prefix-eq word p.rest left e) v)

pub closing-Owes :
    (R : List ℕ → List ℕ → Type 0) (fs : List Frame) (p : Parser)
    → p.root_complete ≡ false
    → R p.rest (after p.rest)
    → Owes R fs p.rest (finish_container fs p)
unfolding finish_container
closing-Owes R fs p going v out t = (after p.rest, v, Todo-Closes p.root_complete fs going t)

array_opened : {a b c : List ℕ} → Spaces a b → ArrayBody true b c → Value (0x5b ∷ a) c
array_opened s (array_body_end e) = empty_array s
array_opened s (array_body_of v u t) = array_of s v u t

object_opened : {a b c : List ℕ} → Spaces a b → ObjectBody true b c → Value (0x7b ∷ a) c
object_opened s (object_body_end e) = empty_object s
object_opened s (object_body_of v u t) = object_of s v u t

-- A frame that is left or entered with space before what it asks for.
pub Todo-Before :
    (R : List ℕ → Type 0) (complete : Bool) (f : Frame) (fs : List Frame) (a out : List ℕ)
    → complete ≡ false
    → ((l m : List ℕ) → Spaces a l → Asks f.state f.allow_end l m → R m)
    → Todo complete (f ∷ fs) a out
    → (m : List ℕ) × R m × Closes fs m out
Todo-Before R true f fs a out e k t = cc
Todo-Before R false f fs a out e k (frames (closes _ {b = b} {c = c} s r rest)) =
    (c, k b c s r, rest)

-- A step that reads no value, and leaves the frame `f`.
frame-Owes :
    (R : List ℕ → List ℕ → Type 0) (f : Frame) (fs : List Frame) (a : List ℕ) (p : Parser)
    → p.root_complete ≡ false
    → p.frames ≡ f ∷ fs
    → ((l m : List ℕ) → Spaces p.rest l → Asks f.state f.allow_end l m → R a m)
    → Owes R fs a p
frame-Owes R f fs a p going e k out t =
    Todo-Before (R a) p.root_complete f fs p.rest out going k
      (subst (λ x. Todo p.root_complete x p.rest out) e t)

Closes-Before :
    (R : List ℕ → Type 0) (f : Frame) (fs : List Frame) (a out : List ℕ)
    → ((l m : List ℕ) → Spaces a l → Asks f.state f.allow_end l m → R m)
    → Closes (f ∷ fs) a out
    → (m : List ℕ) × R m × Closes fs m out
Closes-Before R f fs a out k (closes _ {b = b} {c = c} s r rest) = (c, k b c s r, rest)

-- A step that reads a value inside the frame `f`.
pub inside-Owes :
    (R : List ℕ → List ℕ → Type 0) (f : Frame) (fs : List Frame) (a : List ℕ) (p : Parser)
    → ((v l m : List ℕ) → Value a v → Spaces v l → Asks f.state f.allow_end l m → R a m)
    → Owes Value (f ∷ fs) a p
    → Owes R fs a p
inside-Owes R f fs a p k h out t =
    let (v, value, rest) = h out t in
    Closes-Before (R a) f fs v out (λ l m s r. k v l m value s r) rest

pub push-Owes :
    (limits : Limits) (kind : ContainerKind) (p : Parser)
    → p.root_complete ≡ false
    → next_is (elim kind [ array ↦ 0x5b | object ↦ 0x7b ]) p.rest ≡ true
    → Gives (Owes Value p.frames p.rest) (push_container limits kind p)
unfolding push_container
push-Owes limits array p going e =
    Gives-if (Owes Value p.frames p.rest) (leb limits.max_depth (length p.frames)) _ _ (λ _. tt)
      (λ _ out t.
        Todo-Before (Value p.rest) p.root_complete _ p.frames (after p.rest) out going
          (λ l m s r. seen (λ x. Value x m) 0x5b p.rest e (array_opened s r)) t)
push-Owes limits object p going e =
    Gives-if (Owes Value p.frames p.rest) (leb limits.max_depth (length p.frames)) _ _ (λ _. tt)
      (λ _ out t.
        Todo-Before (Value p.rest) p.root_complete _ p.frames (after p.rest) out going
          (λ l m s r. seen (λ x. Value x m) 0x7b p.rest e (object_opened s r)) t)

pub array_continued : {a b c : List ℕ} → Spaces a b → ArrayBody false b c → ArrayTail (0x2c ∷ a) c
array_continued s (array_body_end e) = cc
array_continued s (array_body_of v u t) = array_next s v u t

pub object_continued :
    {a b c : List ℕ} → Spaces a b → ObjectBody false b c → ObjectTail (0x2c ∷ a) c
object_continued s (object_body_end e) = cc
object_continued s (object_body_of v u t) = object_next s v u t

-- A key, and then the value of its member.
pub member_of :
    (end : Bool) {a b c d e : List ℕ}
    → Text a b
    → Spaces b (0x3a ∷ c)
    → Spaces c d
    → ObjectValue d e
    → ObjectBody end a e
member_of end k s u (object_value_of v w t) = object_body_of (member k s u v) w t

-- What was owed after the space before a round is owed before it.
pub root-Before : {a b out : List ℕ} → Spaces a b → Before Value [] b out → Todo false [] a out
root-Before s (m, v, closed) = root s v

pub frames-Before :
    (f : Frame) (fs : List Frame) {a b out : List ℕ}
    → Spaces a b
    → Before (Asks f.state f.allow_end) fs b out
    → Todo false (f ∷ fs) a out
frames-Before f fs s (m, r, rest) = frames (closes f s r rest)

pub finished-Document : {a r : List ℕ} → Todo false [] a r → Spaces r [] → Document a
finished-Document (root s v) tail = document s v tail

pub complete-Todo : (p : Parser) → p.root_complete ≡ true → TodoOf p p.rest
complete-Todo p e = subst (λ c. Todo c p.frames p.rest p.rest) (sym e) nothing
