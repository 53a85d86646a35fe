-- ===== src/Messaging/Tests/Wire.antt =====
-- A log of messages whose bytes are texts.
use airspace_conformance_pla.Base.{
  refl, sym, String, false, none, some, List, [], ◌∷◌, ◌++◌, ◌==◌, string_eq,
}
use mathlib.Core.Option.{some_inj}
use airspace_conformance_pla.Messaging.{Codec}
use airspace_conformance_pla.Messaging.Publisher.{Outgoing, Producer, Encoder, Tracing, Publisher}
use airspace_conformance_pla.Messaging.RoundTrip.{IsInverse, IsProducer}

abbrev pub plain : Codec String String
plain = record {
  parse = λ b. some b;
  decode = λ b. some b;
  decode_replacing = λ b. b;
  is_empty = λ b. b == "";
}

abbrev pub as_text : Encoder String String
as_text = record { encode = λ s. s; dump = λ m. m }

pub plain-IsInverse : IsInverse plain as_text
plain-IsInverse = record {
  parse-dump = λ m. refl;
  decode-encode = λ s. refl;
  decode_replacing-encode = λ s. refl;
  is_empty-encode = λ s. refl;
}

instance abbrev pub appending : Producer String (List (Outgoing String))
appending = record { send = λ out p. some (p ++ (out ∷ [])) }

abbrev pub whole_log : List (Outgoing String) → List (Outgoing String)
whole_log p = p

pub appending-IsProducer : IsProducer whole_log
appending-IsProducer = record { log-send = λ out p p' e. sym (some_inj.0 e) }

abbrev pub no_tracing : Tracing
no_tracing = record { available = false; active = none; carrier = [] }

abbrev pub opened : Publisher (List (Outgoing String))
opened = record { producer = some []; client_id = "feed"; published = [] }
