-- ===== src/Examples/Answers.antt =====
-- The daemon's answers, written in the way of Codec.antt.
use ai_m_os.Common.{
  ℕ, zero, suc, ◌≡◌, refl, Bool, true, false, List, [], ◌∷◌, ◌==◌, none, some, Text, Exn, Result,
  ok, raised, arith, if◌then◌else◌,
}
use ai_m_os.Common.Lists.{length}
use ai_m_os.Json.{Json}
use ai_m_os.AifsDaemon.Calls.{nil_slice, slice}
use ai_m_os.AifsDaemon.Volumes.{Volume, Snapshot}
use ai_m_os.AifsDaemon.Handle.{
  Response, Payload, no_payload, one_volume, volumes, one_snapshot, snapshots,
}
use ai_m_os.AifsDaemon.Wire.{json_of}
use ai_m_os.Examples.Codec.{Reader, ◌>>=◌, pure, write_text, read_text, read_text-write_text}

write_volume : Volume → Text → Text
unfolding write_text
write_volume v rest = write_text v.path (write_text v.created_at rest)

read_volume : Reader Volume
unfolding read_text
read_volume = do
  path ← read_text
  created_at ← read_text
  pure (record { path = path; created_at = created_at })

read_volume-write_volume :
    (v : Volume) (rest : Text) → read_volume (write_volume v rest) ≡ some (v, rest)
unfolding read_volume write_volume
read_volume-write_volume v rest = ground (
  arith,
  read_text-write_text v.path (write_text v.created_at rest),
  read_text-write_text v.created_at rest,
)

write_snapshot : Snapshot → Text → Text
unfolding write_text
write_snapshot s rest =
    (if s.read_only then 1 else 0)
    ∷ write_text s.name (write_text s.path (write_text s.volume (write_text s.created_at rest)))

read_flag : Reader Bool
read_flag [] = none
read_flag (zero ∷ t) = some (false, t)
read_flag (suc n ∷ t) = some (true, t)

read_snapshot : Reader Snapshot
unfolding read_text read_flag
read_snapshot = do
  read_only ← read_flag
  name ← read_text
  path ← read_text
  volume ← read_text
  created_at ← read_text
  pure (record {
    name = name;
    path = path;
    volume = volume;
    created_at = created_at;
    read_only = read_only;
  })

read_snapshot-write_snapshot :
    (s : Snapshot) (rest : Text) → read_snapshot (write_snapshot s rest) ≡ some (s, rest)
unfolding read_snapshot write_snapshot read_flag
read_snapshot-write_snapshot s rest = ground (
  arith,
  read_text-write_text s.name
      (write_text s.path (write_text s.volume (write_text s.created_at rest))),
  read_text-write_text s.path (write_text s.volume (write_text s.created_at rest)),
  read_text-write_text s.volume (write_text s.created_at rest),
  read_text-write_text s.created_at rest,
)

write_all : {A : Type 0} → (A → Text → Text) → List A → Text → Text
write_all write [] rest = rest
write_all write (a ∷ more) rest = write a (write_all write more rest)

read_all : {A : Type 0} → Reader A → ℕ → Reader (List A)
read_all read zero = pure []
read_all read (suc n) = do a ← read; more ← read_all read n; pure (a ∷ more)

read_all-write_all :
    {A : Type 0} (write : A → Text → Text) (read : Reader A)
    → ((a : A) (rest : Text) → read (write a rest) ≡ some (a, rest))
    → (xs : List A) (rest : Text)
    → read_all read (length xs) (write_all write xs rest) ≡ some (xs, rest)
unfolding write_all read_all
read_all-write_all write read back [] rest = refl
read_all-write_all write read back (a ∷ xs) rest =
    ground (arith, back a (write_all write xs rest), read_all-write_all write read back xs rest)

write_payload : Payload → Text → Text
unfolding write_volume write_snapshot write_all
write_payload no_payload rest = 0 ∷ rest
write_payload (one_volume v) rest = 1 ∷ write_volume v rest
write_payload (volumes nil_slice) rest = 2 ∷ rest
write_payload (volumes (slice vs)) rest = 3 ∷ length vs ∷ write_all write_volume vs rest
write_payload (one_snapshot s) rest = 4 ∷ write_snapshot s rest
write_payload (snapshots nil_slice) rest = 5 ∷ rest
write_payload (snapshots (slice ss)) rest = 6 ∷ length ss ∷ write_all write_snapshot ss rest

read_number : Reader ℕ
read_number [] = none
read_number (n ∷ t) = some (n, t)

read_payload : Reader Payload
unfolding read_volume read_snapshot read_all read_number
read_payload [] = none
read_payload (tag ∷ t) =
    if tag == 0
    then some (no_payload, t)
    else if tag == 1
    then (do v ← read_volume; pure (one_volume v)) t
    else if tag == 2
    then some (volumes nil_slice, t)
    else if tag == 3
    then (do n ← read_number; vs ← read_all read_volume n; pure (volumes (slice vs))) t
    else if tag == 4
    then (do s ← read_snapshot; pure (one_snapshot s)) t
    else if tag == 5
    then some (snapshots nil_slice, t)
    else (do n ← read_number; ss ← read_all read_snapshot n; pure (snapshots (slice ss))) t

read_payload-write_payload :
    (p : Payload) (rest : Text) → read_payload (write_payload p rest) ≡ some (p, rest)
unfolding read_payload write_payload read_number
read_payload-write_payload no_payload rest = refl
read_payload-write_payload (one_volume v) rest = ground (arith, read_volume-write_volume v rest)
read_payload-write_payload (volumes nil_slice) rest = refl
read_payload-write_payload (volumes (slice vs)) rest =
    ground (arith, read_all-write_all write_volume read_volume read_volume-write_volume vs rest)
read_payload-write_payload (one_snapshot s) rest =
    ground (arith, read_snapshot-write_snapshot s rest)
read_payload-write_payload (snapshots nil_slice) rest = refl
read_payload-write_payload (snapshots (slice ss)) rest =
    ground
      (arith, read_all-write_all write_snapshot read_snapshot read_snapshot-write_snapshot ss rest)

unfoldable pub encode : Response → Text
unfolding write_text write_payload
encode r = (if r.is_ok then 1 else 0) ∷ write_text r.error (write_payload r.payload [])

read_response : Reader Response
unfolding read_flag read_text read_payload
read_response = do
  is_ok ← read_flag
  error ← read_text
  payload ← read_payload
  pure (record { is_ok = is_ok; error = error; payload = payload })

read_response-encode : (r : Response) → read_response (encode r) ≡ some (r, [])
unfolding read_response encode read_flag
read_response-encode r = ground (
  arith,
  read_text-write_text r.error (write_payload r.payload []),
  read_payload-write_payload r.payload [],
)

unfoldable pub loads : {F : Type 0} → Text → Result (Json F)
unfolding read_response json_of
loads t = elim (read_response t) [ none ↦ raised Exn.value_error | some (r, _) ↦ ok (json_of r) ]

pub loads-encode : {F : Type 0} (r : Response) → loads {F = F} (encode r) ≡ ok (json_of r)
unfolding loads
loads-encode r = ground (arith, read_response-encode r)
