-- ===== src/Cluster/Viewers.antt =====
-- Which node the state of Patroni is read from (`members` in ha-test/hatest/cluster.py).
use mathlib.Core.List.{append-nil, append_assoc}
use spr1n6_osscontest_server.Common.{
  ◌≡◌, refl, ap, ◌∙◌, subst, String, true, false, Option, some, List, [], ◌∷◌, ◌++◌, ◌<>◌, join,
}
use spr1n6_osscontest_server.Common.Int.{ℤ}
use spr1n6_osscontest_server.Config.{Config}
use spr1n6_osscontest_server.Json.{Json}
use spr1n6_osscontest_server.Model.{Time}
use spr1n6_osscontest_server.Commands.Actions.{patroni_scan_script}
use spr1n6_osscontest_server.Cluster.{RemoteResult, is_ok, brief}
use spr1n6_osscontest_server.Cluster.Session.{Command, Sent, fault, cluster_error, command}
use spr1n6_osscontest_server.Cluster.Methods.{viewers, scan, members_from, members}

-- The command on each of these nodes.
abbrev pub scans : String → List String → List Command
scans script [] = []
scans script (viewer ∷ rest) = command viewer script false 10 ∷ scans script rest

module _ (nodes : List Command → Command → RemoteResult) where
  -- After these commands, no node of the list answers the command, one after the other.
  abbrev pub IsSilent : String → List Command → List String → Type 0
  IsSilent script sent [] = Unit
  IsSilent script sent (viewer ∷ rest) =
      (is_ok (nodes sent (command viewer script false 10)) ≡ false)
      × IsSilent script (sent ++ (command viewer script false 10 ∷ [])) rest

  -- What went wrong on each of them.
  abbrev pub complaints : String → List Command → List String → List String
  complaints script sent [] = []
  complaints script sent (viewer ∷ rest) =
      (viewer <> " " <> brief (nodes sent (command viewer script false 10)))
      ∷ complaints script (sent ++ (command viewer script false 10 ∷ [])) rest

abbrev pub with_sent : Sent → List Command → Sent
with_sent s sent = record s { commands = s.commands ++ sent }

module _ (nodes : List Command → Command → RemoteResult) (c : Config)
    (read_float : String → Option Time) (read_int : String → Option ℤ) (repr : String → String)
    (loads : String → Option Json) (script : String)
    (made : patroni_scan_script c ≡ some script) where
  abbrev complaint : String → List Command → String
  complaint v sent = v <> " " <> brief (nodes sent (command v script false 10))

  members_from-answered :
      (before : List String) (viewer : String) (after errors : List String) (s : Sent)
      → IsSilent nodes script s.commands before
      → is_ok (nodes (s.commands ++ scans script before) (command viewer script false 10)) ≡ true
      → members_from nodes c read_float read_int repr loads (before ++ (viewer ∷ after)) errors s
        ≡ scan nodes c read_float read_int repr loads
            (nodes (s.commands ++ scans script before) (command viewer script false 10))
            (with_sent s (scans script (before ++ (viewer ∷ []))))
  members_from-answered [] viewer after errors s h k =
      rw (made, append-nil s.commands, rw (append-nil s.commands) at k) refl
  members_from-answered (v ∷ before) viewer after errors s h k =
      rw (made, h.0)
        (subst
          (λ sent.
            is_ok (nodes sent (command viewer script false 10)) ≡ true
            → members_from nodes c read_float read_int repr loads (before ++ (viewer ∷ after))
                (errors ++ (complaint v s.commands ∷ []))
                (with_sent s (command v script false 10 ∷ []))
              ≡ scan nodes c read_float read_int repr loads
                  (nodes sent (command viewer script false 10))
                  (with_sent s
                    (command v script false 10 ∷ scans script (before ++ (viewer ∷ [])))))
          (append_assoc s.commands (command v script false 10 ∷ []) (scans script before))
          (λ answered.
            members_from-answered before viewer after (errors ++ (complaint v s.commands ∷ []))
              (with_sent s (command v script false 10 ∷ [])) h.1 answered
            ∙ ap
                (λ sent.
                  scan nodes c read_float read_int repr loads
                    (nodes ((s.commands ++ (command v script false 10 ∷ [])) ++ scans script before)
                      (command viewer script false 10))
                    (record s { commands = sent }))
                (append_assoc s.commands (command v script false 10 ∷ [])
                  (scans script (before ++ (viewer ∷ [])))))
          k)

  members_from-silent :
      (names errors : List String) (s : Sent)
      → IsSilent nodes script s.commands names
      → members_from nodes c read_float read_int repr loads names errors s ≡ (
        fault (
            cluster_error (
              "어느 노드에서도 Patroni 를 조회하지 못했다: "
              <> join " / " (errors ++ complaints nodes script s.commands names))),
        with_sent s (scans script names),
      )
  members_from-silent [] errors s h = rw (append-nil errors, append-nil s.commands) refl
  members_from-silent (v ∷ names) errors s h =
      rw (made, h.0)
        (members_from-silent names (errors ++ (complaint v s.commands ∷ []))
            (with_sent s (command v script false 10 ∷ [])) h.1
          ∙ rw
              (
                append_assoc errors (complaint v s.commands ∷ []) (
                    complaints nodes script (s.commands ++ (command v script false 10 ∷ [])) names),
                append_assoc s.commands (command v script false 10 ∷ []) (scans script names),
              )
              refl)

  -- If the script is made, every node before one in the order of the observer and the others fails its command, and this
  -- one answers, then `members` gives what it reads from this answer, and no node after it is asked.
  pub members-answered :
      (before : List String) (viewer : String) (after : List String) (s : Sent)
      → viewers c ≡ before ++ (viewer ∷ after)
      → IsSilent nodes script s.commands before
      → is_ok (nodes (s.commands ++ scans script before) (command viewer script false 10)) ≡ true
      → members nodes c read_float read_int repr loads s
        ≡ scan nodes c read_float read_int repr loads
            (nodes (s.commands ++ scans script before) (command viewer script false 10))
            (with_sent s (scans script (before ++ (viewer ∷ []))))
  unfolding members
  members-answered before viewer after s e h k =
      ap (λ names. members_from nodes c read_float read_int repr loads names [] s) e
      ∙ members_from-answered before viewer after [] s h k

  -- If the script is made and the command fails on every node, `members` asked each once and raises a ClusterError with what
  -- went wrong on each.
  pub members-silent :
      (s : Sent)
      → IsSilent nodes script s.commands (viewers c)
      → members nodes c read_float read_int repr loads s ≡ (
        fault (
            cluster_error (
              "어느 노드에서도 Patroni 를 조회하지 못했다: "
              <> join " / " (complaints nodes script s.commands (viewers c)))),
        with_sent s (scans script (viewers c)),
      )
  unfolding members
  members-silent s h = members_from-silent (viewers c) [] s h
