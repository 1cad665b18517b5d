-- ===== src/Handler/Session.antt =====
-- A client between its calls: it hears the packages of one output recipe and sends one input recipe.
use lib_urx.Base.{
  refl, ℕ, ◌≡◌, List, Option, length, true, some, ◌==◌, ◌+◌, pos, false, ◌≤◌, arith, ◌&&◌, ◌<◌,
  Ends, Bool, ◌∙◌, All, ret, ◌∷◌, [],
}
use lib_urx.Handler.{Client, recv, Ram}
use lib_urx.Con.{Incoming, arrived, failed}
use mathlib.Core.Path.{subst}
use lib_urx.Memory.{Ram, peek}
use lib_urx.Recipe.Layout.Parse.Keeps.{SameOutside}
use lib_urx.Recipe.Layout.Parse.{TsIs, field_value}
use lib_urx.Con.Laws.{filled}
use lib_urx.Handler.Receive.{
  length-filled, filled-AreBytes, recv-filled, recv-rejects, recv-fails, incoming-AreBytes,
}
use lib_urx.Handler.{recv}
use lib_urx.Handler.Laws.{sp_asked, incoming, is_expected}
use lib_urx.Bytes.{Bytes, AreBytes}
use lib_urx.Token.{Token}
use lib_urx.Token.Store.{IsRam}
use lib_urx.Recipe.Layout.{Layout, IsLaidOut}
use lib_urx.Recipe.Layout.Parse.{Apart, TsClear}
use lib_urx.Handler.Receive.Keeps.{Kept, recv-keeps}

-- The output recipe at p is registered, with some fields.
pub record Hears (h : Client) (p id n : ℕ) (stamp : Option ℕ) (ks : List Token) : Type 0 where
  pub registered : h.out ≡ some p
  pub fields : (h.recipes p).fields ≡ ks
  pub bytes : (h.recipes p).bytes ≡ n
  pub dir_out : (h.recipes p).dir_out ≡ true
  pub recipe_id : (h.recipes p).recipe_id ≡ pos id
  pub tracked : (h.recipes p).ts_ns ≡ stamp
  pub room : length h.buffer ≡ 2048
  pub are_bytes : AreBytes h.buffer
  pub memory : IsRam h.ram

-- What such a recipe is made of.
pub record IsOutput (id n : ℕ) (stamp : Option ℕ) (ks : List Token) : Type 0 where
  pub is_id : (id == 0) ≡ false
  pub is_byte : id < 256
  pub layout : Layout true 0 ks n
  pub fits : n ≤ 2044
  pub apart : Apart ks
  pub clear : TsClear stamp ks

-- What a call of `recv` finds: a package of the recipe, an error, or another frame.
pub data Arrival (id n : ℕ) : Incoming → Type 0 where
  fresh :
      (payload : Bytes)
      → length payload ≡ n
      → AreBytes payload
      → Arrival id n (arrived (incoming (4 + n) b'U' id payload))
  broken : (e : ℕ) → Arrival id n (failed e)
  strange :
      (size type id' : ℕ) (payload : Bytes)
      → size ≤ 2048
      → size ≡ 4 + length payload
      → AreBytes (incoming size type id' payload)
      → ((type == b'U') && (id' == id) && (size == 4 + n)) ≡ false
      → Arrival id n (arrived (incoming size type id' payload))

expected_lem :
    (h : Client) (p id n : ℕ) (stamp : Option ℕ) (ks : List Token)
    → Hears h p id n stamp ks
    → IsOutput id n stamp ks
    → is_expected (h.recipes p) (4 + n) b'U' id ≡ true
expected_lem h p id n stamp ks i o = rw (i.bytes, i.recipe_id) (ground (arith, o.is_id))

unexpected_lem :
    (h : Client) (p id n size type id' : ℕ) (stamp : Option ℕ) (ks : List Token)
    → Hears h p id n stamp ks
    → ((type == b'U') && (id' == id) && (size == 4 + n)) ≡ false
    → is_expected (h.recipes p) size type id' ≡ false
unexpected_lem h p id n size type id' stamp ks i e = rw (i.bytes, i.recipe_id) (ground (arith, e))

-- What an arrival does to the memory, and whether `recv` returns true.
abbrev pub Effect :
    {id n : ℕ} {input : Incoming}
    → Option ℕ
    → List Token
    → ℕ
    → Arrival id n input
    → Ram
    → Ram
    → Bool
    → Type 0
Effect stamp ks ts (fresh payload len bytes) m m' heard =
    (heard ≡ true)
    × All (λ k. peek m' k.storage k.datasize ≡ field_value k payload) ks
    × TsIs stamp m' ts
    × SameOutside stamp ks m m'
Effect stamp ks ts (broken e) m m' heard = (heard ≡ false) × (m' ≡ m)
Effect stamp ks ts (strange size type id' payload fits whole bytes e) m m' heard =
    (heard ≡ false) × (m' ≡ m)

-- The client after a call of `recv`.
abbrev pub heard_client : Client → Ram → Bytes → Client
heard_client h m b = record h { ram = m; buffer = b }

Hears-filled :
    (h : Client) (p id n : ℕ) (stamp : Option ℕ) (ks : List Token) (m : Ram) (frame : Bytes)
    → AreBytes frame
    → IsRam m
    → Hears h p id n stamp ks
    → Hears (heard_client h m (filled h.buffer 2048 frame)) p id n stamp ks
Hears-filled h p id n stamp ks m frame b k i = record {
  registered = i.registered;
  fields = i.fields;
  bytes = i.bytes;
  dir_out = i.dir_out;
  recipe_id = i.recipe_id;
  tracked = i.tracked;
  room = length-filled h.buffer 2048 frame ∙ i.room;
  are_bytes = filled-AreBytes h.buffer 2048 frame i.are_bytes b;
  memory = k;
}

-- A client that hears goes on hearing.
pub hears :
    (h : Client) (p id n : ℕ) (stamp : Option ℕ) (ks : List Token) (input : Incoming) (ts : ℕ)
    → IsOutput id n stamp ks
    → Hears h p id n stamp ks
    → (a : Arrival id n input)
    → (m : Ram) × (b : Bytes) × (heard : Bool) × (recv h input ts ≡ ret (heard_client h m b, heard))
      × Hears (heard_client h m b) p id n stamp ks
      × Effect stamp ks ts a h.ram m heard
hears h p id n stamp ks input ts o i (fresh payload len bytes) =
    let frame = incoming (4 + n) b'U' id payload in
    let e = expected_lem h p id n stamp ks i o in
    let laid : IsLaidOut (h.recipes p) = rw (i.dir_out, i.fields, i.bytes) o.layout in
    let (m, run, fields, time) =
      recv-filled h p (4 + n) id payload ts i.registered i.room i.are_bytes (omega (arith, o.fits))
        (omega arith) e bytes laid i.dir_out (rw i.fields o.apart)
        (rw (i.tracked, i.fields) o.clear) in
    let (memory, outside) = subst (Ends (λ res. Kept h p res.0.ram)) run (
      recv-keeps h p (4 + n) id payload ts i.registered i.room i.are_bytes (omega (arith, o.fits))
        (omega arith) e bytes laid i.dir_out i.memory) in
    (
      m,
      filled h.buffer 2048 frame,
      true,
      run,
      Hears-filled h p id n stamp ks m frame
          (incoming-AreBytes (4 + n) b'U' id payload (omega arith) o.is_byte bytes) memory i,
      (
        refl,
        subst (All (λ k. peek m k.storage k.datasize ≡ field_value k payload)) i.fields fields,
        subst (λ s. TsIs s m ts) i.tracked time,
        subst (λ s. SameOutside s ks h.ram m) i.tracked
            (subst (λ js. SameOutside (h.recipes p).ts_ns js h.ram m) i.fields outside),
      ),
    )
hears h p id n stamp ks input ts o i (broken e) =
    (h.ram, h.buffer, false, recv-fails h e ts, i, (refl, refl))
hears h p id n stamp ks input ts o i (strange size type id' payload fits whole bytes e) =
    let frame = incoming size type id' payload in
    (
      h.ram,
      filled h.buffer 2048 frame,
      false,
      recv-rejects h p size type id' payload ts i.registered i.room i.are_bytes fits whole
          (unexpected_lem h p id n size type id' stamp ks i e),
      Hears-filled h p id n stamp ks h.ram frame bytes i.memory i,
      (refl, refl),
    )

-- After the answer to a start or a stop.
pub Hears-sp_asked :
    (h : Client) (p id n type kind accepted : ℕ) (stamp : Option ℕ) (ks : List Token)
    → kind < 256
    → accepted < 256
    → Hears h p id n stamp ks
    → Hears (sp_asked h type kind accepted) p id n stamp ks
Hears-sp_asked h p id n type kind accepted stamp ks k a i =
    let bs = 0 ∷ 4 ∷ kind ∷ accepted ∷ [] in
    record {
      registered = i.registered;
      fields = i.fields;
      bytes = i.bytes;
      dir_out = i.dir_out;
      recipe_id = i.recipe_id;
      tracked = i.tracked;
      room = length-filled h.buffer 4 bs ∙ i.room;
      are_bytes =
          filled-AreBytes h.buffer 4 bs i.are_bytes (omega arith, (omega arith, (k, (a, tt))));
      memory = i.memory;
    }
