-- ===== src/Backend/Ingestion/Categorizer.antt =====
-- backend/ingestion/categorizer.py: `RuleBasedCategorizer`, and transfers.py: `InternalTransferDetector`.
use buy_or_wait_ai_advisor.Common.{
  Bool, List, Option, String, [], any_of, append, has_text, if◌then◌else◌, lower, nat_eq, none, not,
  pair_eq, some, string_eq, strip, ◌&&◌, ◌==◌, ◌||◌, ◌∷◌,
}
use buy_or_wait_ai_advisor.Backend.Ingestion.Models.{Platform, text_or}
use buy_or_wait_ai_advisor.Backend.Ingestion.Normalizer.{is_found}

abbrev pub category_rules : List (String × List String)
category_rules =
    (
      "salary",
      "\\bsalary\\b" ∷ "\\bpayroll\\b" ∷ "\\bdirect\\s+dep\\b" ∷ "\\bdirect\\s+deposit\\b"
          ∷ "\\bstipend\\b" ∷ "\\bwages\\b" ∷ "\\bbonus\\b" ∷ "\\bemployer\\b" ∷ [],
    )
    ∷ (
      "rent",
      "\\brent\\b" ∷ "\\blease\\b" ∷ "\\blandlord\\b" ∷ "\\bapartment\\b" ∷ "\\bhousing\\b"
          ∷ "\\bproperty\\s+mgmt\\b" ∷ [],
    )
    ∷ (
      "groceries",
      "\\bgrocery\\b" ∷ "\\bgroceries\\b" ∷ "\\bsupermarket\\b" ∷ "\\bwalmart\\b" ∷ "\\bkroger\\b"
          ∷ "\\bwhole\\s*foods\\b" ∷ "\\btrader\\s*joe\\b" ∷ "\\btesco\\b" ∷ "\\bsafeway\\b"
          ∷ "\\baldi\\b" ∷ "\\bcostco\\b" ∷ "\\bpublix\\b" ∷ "\\bfresh\\s*market\\b" ∷ [],
    )
    ∷ (
      "utilities",
      "\\belectric\\b" ∷ "\\bwater\\b" ∷ "\\bgas\\s*bill\\b" ∷ "\\binternet\\b" ∷ "\\bbroadband\\b"
          ∷ "\\bmobile\\b" ∷ "\\butility\\b" ∷ "\\butilities\\b" ∷ "\\bverizon\\b" ∷ "\\bat&t\\b"
          ∷ "\\bcomcast\\b" ∷ "\\bxfinity\\b" ∷ "\\bpower\\b" ∷ [],
    )
    ∷ (
      "transport",
      "\\buber\\b" ∷ "\\blyft\\b" ∷ "\\bfuel\\b" ∷ "\\bgas\\s*station\\b" ∷ "\\bmetro\\b"
          ∷ "\\bsubway\\b" ∷ "\\btransit\\b" ∷ "\\btrain\\b" ∷ "\\bparking\\b" ∷ "\\bshell\\b"
          ∷ "\\bchevron\\b" ∷ "\\bbp\\b" ∷ "\\bexxon\\b" ∷ "\\btoll\\b" ∷ [],
    )
    ∷ (
      "dining",
      "\\brestaurant\\b" ∷ "\\bcafe\\b" ∷ "\\bcoffee\\b" ∷ "\\bstarbucks\\b" ∷ "\\bmcdonald\\b"
          ∷ "\\bburger\\b" ∷ "\\buber\\s*eats\\b" ∷ "\\bdoordash\\b" ∷ "\\bgrubhub\\b"
          ∷ "\\bpizza\\b" ∷ "\\bbar\\b" ∷ "\\bpub\\b" ∷ "\\bbakery\\b" ∷ "\\bdiner\\b"
          ∷ "\\bchipotle\\b" ∷ "\\bsubway\\s+(?:restaurant|sandwiches|food)\\b" ∷ [],
    )
    ∷ (
      "shopping",
      "\\bamazon\\b" ∷ "\\btarget\\b" ∷ "\\bebay\\b" ∷ "\\bclothing\\b" ∷ "\\bretail\\b"
          ∷ "\\bzara\\b" ∷ "\\bh&m\\b" ∷ "\\bbest\\s*buy\\b" ∷ "\\bapple\\s*store\\b"
          ∷ "\\bdepartment\\s*store\\b" ∷ "\\bmall\\b" ∷ [],
    )
    ∷ (
      "entertainment",
      "\\bnetflix\\b" ∷ "\\bspotify\\b" ∷ "\\bcinema\\b" ∷ "\\bmovie\\b" ∷ "\\btheater\\b"
          ∷ "\\bhulu\\b" ∷ "\\bsteam\\b" ∷ "\\bplaystation\\b" ∷ "\\bdisney\\b" ∷ "\\bhbo\\b"
          ∷ "\\bprime\\s*video\\b" ∷ [],
    )
    ∷ (
      "healthcare",
      "\\bpharmacy\\b" ∷ "\\bdoctor\\b" ∷ "\\bhospital\\b" ∷ "\\bclinic\\b" ∷ "\\bdental\\b"
          ∷ "\\bcvs\\b" ∷ "\\bwalgreens\\b" ∷ "\\bmedical\\b" ∷ "\\bhealth\\b" ∷ "\\bmedicine\\b"
          ∷ "\\boptometry\\b" ∷ [],
    )
    ∷ (
      "debt",
      "\\bloan\\b" ∷ "\\bmortgage\\b" ∷ "\\binterest\\s*charge\\b"
          ∷ "\\bcredit\\s*card\\s*payment\\b" ∷ "\\bchase\\s*card\\b" ∷ "\\bamex\\b"
          ∷ "\\bcapital\\s*one\\b" ∷ "\\bauto\\s*loan\\b" ∷ [],
    )
    ∷ (
      "cash_withdrawal",
      "\\batm\\b" ∷ "\\bcash\\s*withdrawal\\b" ∷ "\\bcash\\s*out\\b" ∷ "\\bbank\\s*teller\\b" ∷ [],
    )
    ∷ (
      "transfer",
      "\\btransfer\\b" ∷ "\\bzelle\\b" ∷ "\\bvenmo\\b" ∷ "\\bwire\\b" ∷ "\\bach\\b" ∷ "\\bp2p\\b"
          ∷ [],
    )
    ∷ []

-- The first category whose name is in the text.
unfoldable pub named_category : String → List (String × List String) → Option String
unfolding has_text
named_category raw_clean [] = none
named_category raw_clean ((cat, patterns) ∷ rules) =
    let rest = named_category raw_clean rules in if has_text raw_clean cat then some cat else rest

-- `for pat in patterns: m = re.search(pat, text); if m: return ...`, the text that is matched.
unfoldable pub first_match : Platform → String → List String → Option String
first_match lib text [] = none
first_match lib text (pat ∷ patterns) =
    let rest = first_match lib text patterns in
    elim (lib.search pat text) [ none ↦ rest | some found ↦ some found ]

unfoldable pub matched_category : Platform → String → List (String × List String) → String × String
unfolding first_match
matched_category lib text [] = ("other", "unmatched_fallback")
matched_category lib text ((cat, patterns) ∷ rules) =
    let rest = matched_category lib text rules in
    elim (first_match lib text patterns) [
      | none ↦ rest
      | some found ↦ (cat, append "regex_match:" found)
    ]

unfoldable pub categorize : Platform → String → Option String → String × String
unfolding strip lower named_category matched_category
categorize lib normalized_description explicit_category =
    let given = text_or "" explicit_category in
    let by_rules = matched_category lib (lower normalized_description) category_rules in
    if strip given == ""
    then by_rules
    else elim (named_category (lower (strip given)) category_rules) [
      | none ↦ by_rules
      | some cat ↦ (cat, append "source_statement_header:" given)
    ]

abbrev pub internal_transfer_patterns : List String
internal_transfer_patterns =
    "\\btransfer\\s+to\\s+(?:checking|savings|account)\\b"
    ∷ "\\btransfer\\s+from\\s+(?:checking|savings|account)\\b" ∷ "\\binternal\\s+transfer\\b"
    ∷ "\\bself\\s+transfer\\b" ∷ "\\baccount\\s+transfer\\b" ∷ "\\bonline\\s+transfer\\s+to\\b"
    ∷ "\\bonline\\s+transfer\\s+from\\b" ∷ "\\bxfer\\s+(?:to|from)\\b" ∷ "\\bto\\s+savings\\b"
    ∷ "\\bto\\s+checking\\b" ∷ "\\bfrom\\s+savings\\b" ∷ "\\bfrom\\s+checking\\b" ∷ []

-- An account of the user is named in a text that speaks of a transfer.
unfoldable pub names_account : String → String → Bool
unfolding strip lower has_text
names_account text acc =
    let acc_clean = strip (lower acc) in
    not (acc_clean == "")
    && has_text text acc_clean
    && (has_text text "transfer" || has_text text "xfer")

unfoldable pub is_internal_transfer : Platform → String → List String → Bool
unfolding lower names_account first_match
is_internal_transfer lib normalized_description user_account_names =
    let text = lower normalized_description in
    any_of (names_account text) user_account_names
    || is_found (first_match lib text internal_transfer_patterns)
