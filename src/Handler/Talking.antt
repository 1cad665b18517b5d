-- ===== src/Handler/Talking.antt =====
-- A client that hears one recipe and sends another goes on doing both, whatever it does next.
use lib_urx.Base.{
  ℕ, ◌≡◌, ◌≤◌, ◌+◌, Bool, true, List, take, drop, Option, ℤ, pos, ret, false, All, ◌<◌, length,
  refl,
}
use lib_urx.Bytes.{Bytes}
use lib_urx.Memory.{Ram}
use lib_urx.Con.{Incoming, Con}
use lib_urx.Header.Package.{hdr_size}
use lib_urx.Token.{Token}
use lib_urx.Token.Store.{IsRam}
use lib_urx.Recipe.Layout.{Layout}
use lib_urx.Recipe.Layout.Packed.{packed}
use lib_urx.Handler.{Client, send, recv, send_emerg_msg}
use lib_urx.Handler.Updates.{updated}
use lib_urx.Handler.Emergency.{send_emerg_msg-sends}
use lib_urx.Header.Package.{rtde_hdr_get}
use lib_urx.Base.{false}
use lib_urx.Handler.Session.{Hears, IsOutput, Arrival, Effect, hears, heard_client}
use lib_urx.Handler.Sending.{Sends, sends, Hears-updated}

-- The output recipe at p has the id `id` and the fields ks of n bytes, the input recipe at q the id
-- `id'` and the fields ks' of n' bytes.
module _ (p id n : ℕ) (stamp : Option ℕ) (ks : List Token) (q n' : ℕ) (id' : ℤ)
    (ks' : List Token) where
  pub record Talks (h : Client) : Type 0 where
    pub hears_it : Hears h p id n stamp ks
    pub sends_it : Sends h q n' id' ks'

  -- With another memory.
  pub Talks-ram : (h : Client) (m : Ram) → IsRam m → Talks h → Talks (record h { ram = m })
  Talks-ram h m i t = record {
    hears_it = record {
      registered = t.hears_it.registered;
      fields = t.hears_it.fields;
      bytes = t.hears_it.bytes;
      dir_out = t.hears_it.dir_out;
      recipe_id = t.hears_it.recipe_id;
      tracked = t.hears_it.tracked;
      room = t.hears_it.room;
      are_bytes = t.hears_it.are_bytes;
      memory = i;
    };
    sends_it = record {
      registered = t.sends_it.registered;
      fields = t.sends_it.fields;
      bytes = t.sends_it.bytes;
      dir_in = t.sends_it.dir_in;
      block = t.sends_it.block;
      connected = t.sends_it.connected;
      memory = i;
    };
  }

  pub Talks-recv :
      (h : Client) (input : Incoming) (ts : ℕ)
      → IsOutput id n stamp ks
      → Talks h
      → (a : Arrival id n input)
      → (m : Ram) × (b : Bytes) × (heard : Bool) × (recv h input ts
          ≡ ret (heard_client h m b, heard))
        × Talks (heard_client h m b)
        × Effect stamp ks ts a h.ram m heard
  Talks-recv h input ts o t a =
      let (m, b, heard, run, i, effect) = hears h p id n stamp ks input ts o t.hears_it a in
      (
        m,
        b,
        heard,
        run,
        record {
          hears_it = i;
          sends_it = record {
            registered = t.sends_it.registered;
            fields = t.sends_it.fields;
            bytes = t.sends_it.bytes;
            dir_in = t.sends_it.dir_in;
            block = t.sends_it.block;
            connected = t.sends_it.connected;
            memory = i.memory;
          };
        },
        effect,
      )

  pub Talks-send :
      (h : Client) (w : ℕ)
      → Layout false 0 ks' n'
      → n' ≤ 2044
      → 4 + n' ≤ w
      → Talks h
      → (b : Bytes) × (send h id' (pos w) ≡ ret (updated h q b (4 + n'), true))
        × (hdr_size b ≡ ret (4 + n'))
        × (take n' (drop 4 b) ≡ packed h.ram ks')
        × Talks (updated h q b (4 + n'))
  Talks-send h w l fits room t =
      let (b, run, size, payload, i) = sends h q n' w id' ks' l fits room t.sends_it in
      (
        b,
        run,
        size,
        payload,
        record { hears_it = Hears-updated h q p id n (4 + n') b stamp ks t.hears_it; sends_it = i },
      )

  -- A text message, whether or not its allocation succeeds.
  pub Talks-emergency :
      (h : Client) (has_msg : Bool) (msg : Bytes) (written : ℤ)
      → All (λ c. 0 < c) msg
      → length msg < 255
      → Talks h
      → (c : Con) × (ok : Bool) × (send_emerg_msg has_msg h msg written
          ≡ ret (record h { con = c }, ok))
        × Talks (record h { con = c })
  unfolding send_emerg_msg rtde_hdr_get
  Talks-emergency h false msg written text small t = (h.con, false, refl, t)
  Talks-emergency h true msg written text small t = (
    _,
    _,
    send_emerg_msg-sends h msg written text small t.sends_it.connected,
    record {
      hears_it = record {
        registered = t.hears_it.registered;
        fields = t.hears_it.fields;
        bytes = t.hears_it.bytes;
        dir_out = t.hears_it.dir_out;
        recipe_id = t.hears_it.recipe_id;
        tracked = t.hears_it.tracked;
        room = t.hears_it.room;
        are_bytes = t.hears_it.are_bytes;
        memory = t.hears_it.memory;
      };
      sends_it = record {
        registered = t.sends_it.registered;
        fields = t.sends_it.fields;
        bytes = t.sends_it.bytes;
        dir_in = t.sends_it.dir_in;
        block = t.sends_it.block;
        connected = t.sends_it.connected;
        memory = t.sends_it.memory;
      };
    },
  )
