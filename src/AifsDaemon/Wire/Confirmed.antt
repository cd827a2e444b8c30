-- ===== src/AifsDaemon/Wire/Confirmed.antt =====
-- The commands that ask first, with a yes for an answer.
use ai_m_os.Common.{
  ◌≡◌, refl, sym, ◌∙◌, ap, subst, true, false, List, [], ◌∷◌, ◌++◌, Text, codes, ok, inl, inr,
  arith,
}
use ai_m_os.Common.Str.{text_eq, lower}
use ai_m_os.Aifs.{
  Cli, Output, run, dispatch, commands, cmd_delete, cmd_restore, cmd_rmsnap, refuses,
}
use ai_m_os.Json.{Fields, end, field, str}
use ai_m_os.AifsDaemon.Go.{G, Outcome}
use ai_m_os.AifsDaemon.Calls.{System}
use ai_m_os.AifsDaemon.Handle.{Request, Response, no_payload, answer, respond}
use ai_m_os.AifsDaemon.Returns.{
  Returns, delete_volume-Returns, delete_snapshot-Returns, restore_snapshot-Returns,
}
use ai_m_os.AifsDaemon.Wire.{Sent, with_path, with_both, with_snap, Served, Speaks}
use ai_m_os.AifsDaemon.Wire.Told.{
  idle, request_of, request_of-done, request_of-refused, IsTold, Asks, delete, restore, rmsnap,
}
use ai_m_os.AifsDaemon.Wire.Exchange.{facing}

module _ {W F : Type 0} (sys : System W) (decode : Text → Outcome Request)
    (encode : Response → Text) (pieces : Text → List Text) (cli : Cli (Served W) F)
    (speaks : Speaks sys decode encode pieces cli)
    (plain : (e : Text) → cli.str_of (str e) ≡ e) where
  abbrev user : Cli (Served W) F
  user = facing sys decode encode pieces cli

  told :
      (work : G W (Unit {0})) (op : Text) (fields : Fields F) (message : Text) (req : Request)
      (w : W) (printed : List Output)
      → Sent op fields req
      → answer sys req ≡ respond (λ _. no_payload) work
      → Returns (work w)
      → IsTold message printed
          (work w).0
          (work w).1
          (request_of sys decode encode pieces cli speaks plain op fields message (idle w, printed))
  unfolding IsTold respond
  told work op fields message req w printed sent e (inl (w', h)) =
      subst
        (λ r. IsTold message printed r.0 r.1 (
          request_of sys decode encode pieces cli speaks plain op fields message (idle w, printed)))
        (sym h)
        (request_of-done sys decode encode pieces cli speaks plain op fields message req w w'
          no_payload printed sent (ap (λ f. f w) e ∙ ground (arith, h)))
  told work op fields message req w printed sent e (inr (x, (w', h))) =
      subst
        (λ r. IsTold message printed r.0 r.1 (
          request_of sys decode encode pieces cli speaks plain op fields message (idle w, printed)))
        (sym h)
        (request_of-refused sys decode encode pieces cli speaks plain op fields message req w w' x
          printed sent (ap (λ f. f w) e ∙ ground (arith, h)))

  module _ (reply : Text) (yes : text_eq (lower reply) (codes "y") ≡ true) (w : W)
      (printed : List Output)
      (asked : (prompt : Text) → cli.input prompt (idle w) ≡ (ok reply, idle w)) where
    accepts :
        (prompt : Text) → refuses user prompt (idle w, printed) ≡ (ok false, (idle w, printed))
    unfolding refuses
    accepts prompt = ground (arith, asked prompt, yes)

    run-delete :
        (path : Text) (more : List Text)
        → run user (codes "delete" ∷ path ∷ more) (idle w, printed)
          ≡ request_of sys decode encode pieces cli speaks plain
              (codes "delete_volume")
              (field (codes "path") (str path) end)
              (codes "^ Deleted: " ++ path)
              (idle w, printed)
    unfolding run dispatch commands text_eq cmd_delete
    run-delete path more =
        ground (arith, accepts (codes "Delete volume '" ++ path ++ codes "'? [y/N] "))

    run-restore :
        (volume snap : Text) (more : List Text)
        → run user (codes "restore" ∷ volume ∷ snap ∷ more) (idle w, printed)
          ≡ request_of sys decode encode pieces cli speaks plain
              (codes "restore")
              (field (codes "path") (str volume) (field (codes "snap") (str snap) end))
              (codes "^ Restored: " ++ volume ++ codes "  <- " ++ snap)
              (idle w, printed)
    unfolding run dispatch commands text_eq cmd_restore
    run-restore volume snap more = ground (
      arith,
      accepts (codes "Restore '" ++ volume ++ codes "' from '" ++ snap ++ codes "'? [y/N] "),
    )

    run-rmsnap :
        (snap : Text) (more : List Text)
        → run user (codes "rmsnap" ∷ snap ∷ more) (idle w, printed)
          ≡ request_of sys decode encode pieces cli speaks plain
              (codes "delete_snapshot")
              (field (codes "snap") (str snap) end)
              (codes "^ Snapshot deleted: " ++ snap)
              (idle w, printed)
    unfolding run dispatch commands text_eq cmd_rmsnap
    run-rmsnap snap more =
        ground (arith, accepts (codes "Delete snapshot '" ++ snap ++ codes "'? [y/N] "))

    -- The daemon runs, each side reads what the other writes, `str` of a text is the text, and the
    -- answer to the question is y or Y: then the daemon does the work of the command, once. The
    -- program prints the line of success and ends in order if the work has succeeded; if not it
    -- prints the daemon's error and exits with 1. The daemon does not panic.
    pub run-Asks :
        (argv : List Text) (work : G W (Unit {0})) (message : Text)
        → Asks sys argv work message
        → IsTold message printed (work w).0 (work w).1 (run user argv (idle w, printed))
    unfolding answer text_eq
    run-Asks argv work message (delete path more) =
        subst (IsTold message printed (work w).0 (work w).1) (sym (run-delete path more)) (
          told work (codes "delete_volume") (field (codes "path") (str path) end) message
            (record { op = codes "delete_volume"; path = path; name = []; snap = [] }) w printed
            (with_path path) refl (delete_volume-Returns sys path w))
    run-Asks argv work message (restore volume snap more) =
        subst (IsTold message printed (work w).0 (work w).1) (sym (run-restore volume snap more)) (
          told work (codes "restore")
            (field (codes "path") (str volume) (field (codes "snap") (str snap) end)) message
            (record { op = codes "restore"; path = volume; name = []; snap = snap }) w printed
            (with_both volume snap) refl (restore_snapshot-Returns sys snap volume w))
    run-Asks argv work message (rmsnap snap more) =
        subst (IsTold message printed (work w).0 (work w).1) (sym (run-rmsnap snap more)) (
          told work (codes "delete_snapshot") (field (codes "snap") (str snap) end) message
            (record { op = codes "delete_snapshot"; path = []; name = []; snap = snap }) w printed
            (with_snap snap) refl (delete_snapshot-Returns sys snap w))
