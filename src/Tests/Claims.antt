-- ===== src/Tests/Claims.antt =====
-- Tests of the ticket.
use txt.Prelude.{◌+◌, ltb, ◌≡◌, refl, some, [], ◌∷◌, codes, arith, if◌then◌else◌}
use txt.Errors.{value, raise, ticket_verification}
use txt.Json.{obj}
use txt.Platform.{Platform}
use txt.Ticket.{TicketSubject, issue_ticket, verify_ticket, full_claims, ticket_ttl_seconds}
use txt.Ticket.RoundTrip.{verify_ticket-issue_ticket}
use txt.Tests.Data.{platform_with}

abbrev subject : TicketSubject
subject = record {
  sub = codes "owner@example.com";
  jti = codes "AQ";
  user_handle_hash = codes "AA";
  sign_public_key = codes "AA";
  db_binding_hash = codes "AA";
}

abbrev platform : Platform
platform = platform_with (λ text. some (obj (full_claims subject 1000)))

verify_ticket-issue_ticket_example :
    verify_ticket platform (issue_ticket platform subject (1 ∷ []) 1000) (1 ∷ []) 2000 ≡ (
      if ltb 2000 (1000 + ticket_ttl_seconds)
      then value (full_claims subject 1000)
      else raise (ticket_verification (codes "ticket expired")))
verify_ticket-issue_ticket_example =
    verify_ticket-issue_ticket platform subject (1 ∷ []) 1000 2000
      (λ message. (omega arith, (omega arith, (omega arith, tt)))) (omega arith, (omega arith, tt))
      refl
