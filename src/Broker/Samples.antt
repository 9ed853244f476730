-- ===== src/Broker/Samples.antt =====
-- The topology, the connections and the publisher at a broker that counts what it is asked.
use media_forge.Prelude.{
  ℕ, zero, suc, eqb, ◌+◌, ◌≤◌, ◌≡◌, ◌⊎◌, refl, Bool, true, false, ◌||◌, Option, none, some, pos,
  negsuc, if◌then◌else◌,
}
use media_forge.Text.{Text, codes, ◌==◌}
use media_forge.Errors.{Error, plain, wrapped, Result, ok, err}
use media_forge.Broker.{int32_milliseconds, topology, work_steps, declare}
use media_forge.Broker.Routing.{visited, has_wildcard, Routes, topology-Routes}
use media_forge.Broker.Connection.{Client, Session, setup, IsSetUp}
use media_forge.Gateway.Contract.{routing_key, valid}
use media_forge.Gateway.Dial.{dial_from, dial_with_retry, dial_with_retry-bounds}
use media_forge.Gateway.Broker.{Channel, publish_json}
use media_forge.Gateway.Broker as Gateway
use media_forge.Gateway.Broker.Connect.{connect-IsSetUp}
use media_forge.Gateway.Broker.Connect as GatewayConnect
use media_forge.Worker.Broker as Worker

broker : Unit {0}
unfolding codes ◌==◌ int32_milliseconds topology work_steps declare routing_key valid setup
    dial_from dial_with_retry publish_json Gateway.connect Gateway.declare_topology Worker.connect
    Worker.declare_topology
broker = tt

-- Ten seconds; and a time to live that int32 does not hold.
times :
    (int32_milliseconds 10_000_000_000 ≡ pos 10000)
    × (int32_milliseconds 2_147_483_648_000_000 ≡ negsuc 2147483647)
unfolding broker
times = (refl, refl)

-- A binding with a wildcard matches every key, and any other its own.
abbrev matches : Text → Text → Bool
matches pattern key = has_wildcard pattern || pattern == key

topology-Routes_example : Routes matches (topology (visited true) 10_000_000_000) (codes "ocr")
unfolding broker
topology-Routes_example =
    topology-Routes matches (λ key. refl) (λ pattern key h. rw h refl) true 10_000_000_000
      (codes "ocr") refl

-- The state counts down the calls that are refused before RabbitMQ answers, then up those that it
-- has answered; the third one fails.
abbrev refuse : ℕ → Result (Unit {0}) × ℕ
refuse zero = (ok tt, 0)
refuse (suc n) = (err (plain (codes "refused")), n)

abbrev third_fails : ℕ → Option Error × ℕ
third_fails n = (if eqb n 2 then some (plain (codes "gone")) else none, n + 1)

abbrev client_of : (ℕ → Option Error × ℕ) → Client
client_of answer = record {
  State = ℕ;
  dial = refuse;
  channel = answer;
  prepare = answer;
  call = λ command. answer;
  close = λ n. n;
}

abbrev healthy : Client
healthy = client_of (λ n. (none, n + 1))

abbrev failing : Client
failing = client_of third_fails

abbrev fresh : Session ℕ
fresh = record { client = 2; opened = 0; closed = 0 }

connects :
    ((Gateway.connect healthy (visited false) 10_000_000_000 fresh).0 ≡ ok tt)
    × ((Gateway.connect failing (visited false) 10_000_000_000 fresh).0
        ≡ err (wrapped (codes "declare exchange media.jobs") (plain (codes "gone"))))
    × ((Gateway.connect failing (visited false) 10_000_000_000 fresh).1.closed ≡ 1)
    × ((Worker.connect healthy (visited false) 10_000_000_000 fresh).0
        ≡ err (wrapped (codes "dial rabbitmq") (plain (codes "refused"))))
unfolding broker
connects = (refl, refl, refl, refl)

dial_with_retry-bounds_example :
    ((c : Unit {0}) × ((dial_with_retry refuse 3).connection ≡ ok c)
      × ((dial_with_retry refuse 3).dials ≤ 12)
      × ((dial_with_retry refuse 3).slept ≤ 55750))
    ⊎ ((e : Error) × ((dial_with_retry refuse 3).connection ≡ err e)
        × ((dial_with_retry refuse 3).dials ≡ 12)
        × ((dial_with_retry refuse 3).slept ≡ 55750))
dial_with_retry-bounds_example = dial_with_retry-bounds refuse 3

connect-IsSetUp_example :
    IsSetUp healthy 0
      (GatewayConnect.Ready healthy (visited false) 10_000_000_000 (dial_with_retry refuse 2).state)
      (Gateway.connect healthy (visited false) 10_000_000_000 fresh)
connect-IsSetUp_example = connect-IsSetUp healthy (visited false) 10_000_000_000 0 fresh refl

abbrev publisher : Bool → Channel Text
publisher acked = record {
  State = ℕ;
  Confirmation = ℕ;
  marshal = λ v. ok v;
  publish = λ exchange key body n. (ok n, n + 1);
  wait = λ conf n. (acked, n);
}

publishes :
    ((publish_json (publisher true) (codes "x") (codes "k") (codes "m") 0).0 ≡ none)
    × ((publish_json (publisher false) (codes "x") (codes "k") (codes "m") 0).0
        ≡ some (plain (codes "publish to x/k not confirmed (nacked)")))
unfolding broker
publishes = (refl, refl)
