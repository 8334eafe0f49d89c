-- ===== src/Device/Tests.antt =====
-- Runs of the methods of a device and of the registry, on small devices.
use kcd.Base.{
  ℕ, zero, suc, ap, String, ltb, ◌≡◌, ◌≤◌, ◌⊎◌, refl, true, false, not, ◌&&◌, none, some, List, [],
  ◌∷◌, ◌==◌, if◌then◌else◌, All, lookup,
}
use kcd.Base.Int.{pos}
use kcd.Protocol.{Packet, new_pair_packet}
use kcd.Device.{pair_requested, paired, unpaired, Ip, Conn, Device, new_device, is_connected}
use kcd.Device.Session.{Step, begins, finishes, disconnects, dies, run, member}
use kcd.Device.Session.Channels.{run-new_device_total}
use kcd.Device.Io.{Lap, packet, malformed, broken, read_loop}
use kcd.Device.Io.Gate.{IsSafe, read_loop-IsSafe}
use kcd.Device.Registry.{Store}
use kcd.Device.Registry.Saved.{Codec, IsFaithful, Stored, absent, sync_dir, save, load}
use kcd.Device.Registry.Saved.Restored.{known, kept, is_early, load-save}
use kcd.Protocol.Names.{Unicode}
use kcd.Base.Text.{codes}
use Prim.Native.String as S

abbrev wifi : Conn
wifi = record { handle = 1; tcp_ip = some (some 10); peer_cert = none }

abbrev cable : Conn
cable = record { handle = 2; tcp_ip = some (some 11); peer_cert = none }

abbrev fresh : Device
unfolding new_device
fresh = new_device "id" "phone" "phone"

-- A paired device on the first connection.
abbrev online : Device
online = record fresh { state = paired; conn = some wifi; done = 1 }

abbrev hello : Packet
unfolding new_pair_packet
hello = new_pair_packet true (pos 5) 6

abbrev session : List Step
session =
    begins wifi true true
    ∷ begins cable true true
    ∷ dies wifi 3
    ∷ finishes wifi 4
    ∷ disconnects 5
    ∷ []

run-new_device_total_example :
    (d : Device) × (run session (new_device "id" "phone" "phone") ≡ some d)
    × ((g : ℕ) → 1 ≤ g → g ≤ d.done → member g d.closed ≡ not (is_connected d && g == d.done))
run-new_device_total_example = run-new_device_total session "id" "phone" "phone"

-- What a second connection, and the death of the first, leave of it.
abbrev replaced : Device
replaced = record online {
  conn = some cable;
  has_on_disconnect = true;
  closed = 1 ∷ [];
  done = 2;
  last_ip = some 11;
  connect_started = some 8;
  last_connect = some 8;
}

abbrev dropped : Device
dropped = record online {
  conn = none;
  last_seen = some 8;
  last_connect = none;
  close_once = true;
  closed = 1 ∷ [];
}

abbrev laps : List Lap
laps =
    record { cancelled = false; read = packet hello; state = unpaired; finished = true }
    ∷ record { cancelled = false; read = malformed; state = unpaired; finished = true }
    ∷ record { cancelled = false; read = packet hello; state = paired; finished = false }
    ∷ record { cancelled = false; read = broken; state = paired; finished = true }
    ∷ []

read_loop-IsSafe_example : All IsSafe (read_loop true laps).0
read_loop-IsSafe_example = read_loop-IsSafe true laps

abbrev queued : Device
queued = record online { send_chan = hello ∷ [] }

abbrev cell : Ip
cell = some 12

abbrev parted : Device
parted = record replaced {
  conn = none;
  last_seen = some 8;
  last_connect = none;
  close_once = true;
  closed = 2 ∷ 1 ∷ [];
}

abbrev store : Store
store = record {
  heap = λ a. if a == 0 then online else fresh;
  devices = ("a", 0) ∷ ("b", 1) ∷ [];
  next_addr = 2;
  has_bus = true;
}

-- An address is written as so many marks after the first, and a file holds the list itself.
marks : ℕ → String
marks zero = S.[]
marks (suc n) = S.◌∷◌ (S.char_at "x" 0) (marks n)

count_marks : String → ℕ
count_marks S.[] = 0
count_marks (S.◌∷◌ c s) = suc (count_marks s)

count_marks-marks : (n : ℕ) → count_marks (marks n) ≡ n
unfolding count_marks marks
count_marks-marks zero = refl
count_marks-marks (suc n) = ap suc (count_marks-marks n)

parse_marks : String → Ip
parse_marks S.[] = none
parse_marks (S.◌∷◌ c s) = some (count_marks s)

abbrev plain : Codec (List Stored)
unfolding marks parse_marks
plain = record {
  ip_string = λ n. marks (suc n);
  parse_ip = parse_marks;
  encode = λ l. l;
  decode = some;
}

plain-IsFaithful : IsFaithful plain
unfolding plain marks parse_marks
plain-IsFaithful = record {
  parse_ip-ip_string = λ n. ap some (count_marks-marks n);
  parse_ip_empty = refl;
  decode-encode = λ l. refl;
}

abbrev ascii : Unicode
ascii = record { is_control = λ c. ltb c 32; encode = codes; decode_valid = λ bs. "" }

abbrev shelf : Store
shelf = record {
  heap = λ a.
      if a == 0
      then record online { id = "a"; last_ip = some 3; last_port = 1716 }
      else record fresh { id = "b"; state = pair_requested };
  devices = ("a", 0) ∷ ("b", 1) ∷ [];
  next_addr = 2;
  has_bus = true;
}

abbrev bare : Store
bare = record { heap = λ a. fresh; devices = []; next_addr = 0; has_bus = true }

load-save_example :
    let (file, error) = save plain (some sync_dir) absent shelf in
    let (r', events, succeeded) = load ascii plain file bare in
    (error ≡ some sync_dir)
    × (((is_early (some sync_dir) ≡ true) × (file ≡ absent))
        ⊎ ((is_early (some sync_dir) ≡ false)
            × (succeeded ≡ true)
            × ((id : String)
                → known r' id ≡ elim (known shelf id) [
                  | none ↦ known bare id
                  | some d ↦ some (kept ascii true d)
                ])))
unfolding lookup
load-save_example =
    load-save ascii plain (some sync_dir) absent shelf bare plain-IsFaithful
      (refl, refl, (refl, refl, tt)) tt
