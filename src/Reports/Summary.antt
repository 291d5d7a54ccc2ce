-- ===== src/Reports/Summary.antt =====
-- apps/api/internal/report/data.go: the summary page of a report. A Go map is a function, and an
-- `int` is a natural number: the counts are of stored work orders.
pub mod Percent
pub mod Sections
use sdano.Base.{
  ℕ, ◌+◌, ◌*◌, ◌/◌, Bool, true, false, Option, none, some, String, List, [], ◌∷◌, ◌++◌, ◌==◌, ltb,
  length, if◌then◌else◌,
}
use sdano.Base.Bytes.{Bytes}

pub record PhotoCell : Type 0 where
  pub data_uri : String
  pub caption : Bytes
  pub missing : Bool

pub record JobRow : Type 0 where
  pub date : String
  pub finished_at : String
  pub worker_name : String
  pub checked_items : ℕ
  pub total_items : ℕ
  pub photos : List PhotoCell

pub record ReportSummaryRow : Type 0 where
  pub object_id : ℕ
  pub object_name : String
  pub address : Option String
  pub planned : ℕ
  pub done : ℕ
  pub missed : ℕ

pub record SummaryRow : Type 0 where
  pub name : String
  pub address : String
  pub planned : ℕ
  pub done : ℕ
  pub missed : ℕ

pub record SummaryData : Type 0 where
  pub object_count : ℕ
  pub planned : ℕ
  pub done : ℕ
  pub missed : ℕ
  pub completion_pct : ℕ
  pub per_object : List SummaryRow

pub record ObjectAccum : Type 0 where
  pub name : String
  pub address : String
  pub jobs : List JobRow

-- The three results of `buildSummary`.
pub record Built : Type 0 where
  pub summary : SummaryData
  pub order : List ℕ
  pub meta : ℕ → Option ObjectAccum

abbrev pub address_text : Option String → String
address_text none = ""
address_text (some a) = a

abbrev pub summary_row : ReportSummaryRow → SummaryRow
summary_row s = record {
  name = s.object_name;
  address = address_text s.address;
  planned = s.planned;
  done = s.done;
  missed = s.missed;
}

abbrev pub add_row : ReportSummaryRow → Built → Built
add_row s b = record {
  summary = record b.summary {
    planned = b.summary.planned + s.planned;
    done = b.summary.done + s.done;
    missed = b.summary.missed + s.missed;
    per_object = b.summary.per_object ++ (summary_row s ∷ []);
  };
  order = b.order ++ (s.object_id ∷ []);
  meta = λ id.
      if id == s.object_id
      then some (record { name = s.object_name; address = address_text s.address; jobs = [] })
      else b.meta id;
}

unfoldable pub add_rows : List ReportSummaryRow → Built → Built
add_rows [] b = b
add_rows (s ∷ rows) b = add_rows rows (add_row s b)

abbrev pub start : List ReportSummaryRow → Built
start rows = record {
  summary = record {
    object_count = length rows;
    planned = 0;
    done = 0;
    missed = 0;
    completion_pct = 0;
    per_object = [];
  };
  order = [];
  meta = λ id. none;
}

abbrev pub completion : SummaryData → ℕ
completion s = if ltb 0 s.planned then s.done * 100 / s.planned else s.completion_pct

unfoldable pub build_summary : List ReportSummaryRow → Built
unfolding add_rows
build_summary rows =
    let b = add_rows rows (start rows) in
    record b { summary = record b.summary { completion_pct = completion b.summary } }
