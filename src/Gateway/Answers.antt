-- ===== src/Gateway/Answers.antt =====
-- What the gateway makes of an inbound message: it forwards the request that the message carries, or
-- tells the sender that it does not.
use elsa_fyp.Prelude.{◌≡◌, String, Outcome, ok, Fault}
use elsa_fyp.Core.Containers.{Container}
use elsa_fyp.Transport.Proto.{Codec}
use elsa_fyp.Transport.Decoding.{serialize_container}
use elsa_fyp.Gateway.Fix.{Fix, Message}
use elsa_fyp.Gateway.Application.{Call, send, send_to_target, Locals, rejection}
use elsa_fyp.Gateway.Carried.{Routed}

module _ (fix : Fix) (m : Message fix) where
  -- What the handler does: it forwards what the message carries, or rejects it to its sender.
  pub data Answer (codec : Codec) {A : Type 0} (container : A → Container) (Carries : A → Type 0)
      (exec_id : String) (result : Outcome (Call fix codec)) : Type 0 where
    forwarded :
        (c : A)
        → Carries c
        → result ≡ ok (send (serialize_container codec (container c)))
        → Answer codec container Carries exec_id result
    refused :
        (l : Locals) (e : Fault)
        → Routed fix m l
        → result
          ≡ ok (
              send_to_target
                (rejection fix l exec_id (fix.what e))
                l.target_comp_id
                l.sender_comp_id)
        → Answer codec container Carries exec_id result
