-- ===== src/Httpserver/Samples.antt =====
-- Values that the tests of the package httpserver and of the commands share.
use wbsv.Common.{◌*◌, none, List, [], Bytes, codes}
use wbsv.Http1.Header.{HeaderField}
use wbsv.Httpserver.App.{AppRequest, World}
use wbsv.Http1.Request.{http_1_1}

abbrev pub morning : World
morning = record { counter = 0; log = []; clock = λ n. n * 7; readings = 0 }

abbrev pub header_field : Bytes → Bytes → HeaderField
header_field name value = record { name = name; value = value }

abbrev pub get_of : List HeaderField → AppRequest
get_of headers = record {
  http = record {
    request_line = record {
      method = codes "GET";
      request_target = codes "/a?b";
      version = http_1_1;
    };
    headers = headers;
    body = [];
  };
  params = none;
  request_id = none;
}
