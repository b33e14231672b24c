-- ===== src/Handshake/Packet/Records.antt =====
-- The records of the packets that `new_handshake` of src/handshake.c builds.
use mathlib.Core.Path.{fun_ext}
use fastd.Base.{
  ℕ, ◌/◌, ◌%◌, ◌^◌, ◌≡◌, refl, sym, ap₂, ◌∙◌, Option, none, some, ◌>>=◌, List, [], ◌∷◌, ◌++◌, ◌==◌,
  if◌then◌else◌, take, Bool-cases, inl, inr,
}
use fastd.Buffer.{Buffer}
use fastd.Handshake.Record.{
  record_handshake_type, record_flags, record_mode, record_protocol_name, record_mtu,
  record_method_name, record_version_name, record_method_list, record_compression_name, add,
  add_uint16,
}
use fastd.Handshake.Parse.Loop.{Tlvs}
use fastd.Handshake.Methods.{Str, create_method_list}
use fastd.Handshake.Packet.{Config, get_mode_id, add_opt, has_any, flag_l2tp_support, put_records}
use fastd.Handshake.Packet.Build.{add_all, uint8-add, uint16-add}

abbrev pub opt_tlv : ℕ → Option Str → Tlvs
opt_tlv t none = []
opt_tlv t (some s) = (t, s) ∷ []

abbrev pub mtu_tlv : ℕ → Tlvs
mtu_tlv mtu = if mtu == 0 then [] else (record_mtu, mtu % 256 ∷ mtu / 2 ^ 8 % 256 ∷ []) ∷ []

abbrev pub method_tlv : Option Str → List Str → Tlvs
method_tlv method methods = if has_any methods then [] else opt_tlv record_method_name method

abbrev pub list_tlv : List Str → Tlvs
list_tlv methods =
    if has_any methods
    then (record_method_list, take (create_method_list methods).1 (create_method_list methods).0)
      ∷ []
    else []

-- What a new handshake says: its type, the flags, the mode, the MTU if there is one, the version and
-- the protocol, the method or the list of methods, and the compression if there is one.
abbrev pub handshake_records : Config → ℕ → ℕ → Option Str → List Str → Tlvs
handshake_records c type mtu method methods =
    (record_handshake_type, type % 256 ∷ [])
    ∷ (record_flags, flag_l2tp_support ∷ [])
    ∷ (record_mode, get_mode_id c.mode % 256 ∷ [])
    ∷ (mtu_tlv mtu
        ++ ((record_version_name, c.version)
            ∷ (record_protocol_name, c.protocol_name)
            ∷ (method_tlv method methods
                ++ (list_tlv methods ++ opt_tlv record_compression_name c.compression_name))))

bind_cong :
    {A B : Type 0} {m m' : Option A} {f g : A → Option B}
    → m ≡ m'
    → ((a : A) → f a ≡ g a)
    → (m >>= f) ≡ (m' >>= g)
bind_cong e h = ap₂ ◌>>=◌ e (fun_ext h)

bind_assoc :
    {A B C : Type 0} (m : Option A) (f : A → Option B) (g : B → Option C)
    → (m >>= (λ a. f a >>= g)) ≡ ((m >>= f) >>= g)
bind_assoc none f g = refl
bind_assoc (some a) f g = refl

bind_unit : {A : Type 0} (m : Option A) → m ≡ (m >>= some)
bind_unit none = refl
bind_unit (some a) = refl

add_all-append :
    (b : Buffer) (xs ys : Tlvs) → add_all b (xs ++ ys) ≡ (add_all b xs >>= (λ b'. add_all b' ys))
add_all-append b [] ys = refl
add_all-append b ((t, v) ∷ xs) ys =
    bind_cong {m = add b t v} refl (λ b'. add_all-append b' xs ys)
    ∙ bind_assoc (add b t v) (λ b'. add_all b' xs) (λ b'. add_all b' ys)

mtu-step :
    (b : Buffer) (mtu : ℕ)
    → (if mtu == 0 then some b else add_uint16 b record_mtu mtu) ≡ add_all b (mtu_tlv mtu)
mtu-step b mtu = elim (Bool-cases (mtu == 0)) [
  | inl e ↦ rw e refl
  | inr e ↦ rw e (uint16-add b record_mtu mtu ∙ bind_unit (add b record_mtu _))
]

opt-step : (b : Buffer) (t : ℕ) (o : Option Str) → add_opt b t o ≡ add_all b (opt_tlv t o)
opt-step b t none = refl
opt-step b t (some s) = bind_unit (add b t s)

method-step :
    (b : Buffer) (method : Option Str) (methods : List Str)
    → (if has_any methods then some b else add_opt b record_method_name method)
      ≡ add_all b (method_tlv method methods)
method-step b method [] = opt-step b record_method_name method
method-step b method (m ∷ ms) = refl

list-step :
    (b : Buffer) (methods : List Str)
    → (if has_any methods
        then add b record_method_list
            (take (create_method_list methods).1 (create_method_list methods).0)
        else some b)
      ≡ add_all b (list_tlv methods)
list-step b [] = refl
list-step b (m ∷ ms) = bind_unit (add b record_method_list _)

pub put_records-add_all :
    (c : Config) (type mtu : ℕ) (method : Option Str) (methods : List Str) (b : Buffer)
    → put_records c type mtu method methods b
      ≡ add_all b (handshake_records c type mtu method methods)
unfolding put_records
put_records-add_all c type mtu method methods b =
    bind_cong (uint8-add b record_handshake_type type) λ b.
      bind_cong (uint8-add b record_flags flag_l2tp_support) λ b.
        bind_cong (uint8-add b record_mode (get_mode_id c.mode)) λ b.
          bind_cong (mtu-step b mtu) (λ b.
            bind_cong {m = add b record_version_name c.version} refl λ b.
              bind_cong {m = add b record_protocol_name c.protocol_name} refl λ b.
                bind_cong (method-step b method methods) (λ b.
                  bind_cong (list-step b methods)
                    (λ b. opt-step b record_compression_name c.compression_name)
                  ∙ sym (add_all-append b (list_tlv methods) _))
                ∙ sym (add_all-append b (method_tlv method methods) _))
          ∙ sym (add_all-append b (mtu_tlv mtu) _)
